-- ===== src/XmppMgr/Numerals.antt =====
-- services/xmproxy/srv/src/XmppMgr.cpp: the numbers in its texts, read from the bytes of a std::string as `atoi`
-- does, and written as std::to_string and `%d` do.
use jsonrpc_tcp_srv.Prelude.{
  ℕ, zero, suc, ◌+◌, ◌-◌, ◌*◌, ◌/◌, ◌%◌, ◌<◌, ◌≤◌, true, false, ◌&&◌, [], ◌∷◌, All, leb, ltb, ◌==◌,
  if◌then◌else◌, ℤ, pos, negsuc, ◌≡◌, refl, ap, ◌∙◌, arith, Bool-cases, inl, inr,
}
use jsonrpc_tcp_srv.Framer.{Bytes}
use jsonrpc_tcp_srv.StringProcessor.{is_space}
use jsonrpc_tcp_srv.XmppMgr.Aliases.{skip_spaces}

-- The value of the digits at the front, behind `n`.
digits_value : ℕ → Bytes → ℕ
digits_value n [] = n
digits_value n (c ∷ s) =
    let rest = digits_value (n * 10 + (c - b'0')) s in if leb b'0' c && leb c b'9' then rest else n

abbrev negated : ℕ → ℤ
negated zero = pos 0
negated (suc n) = negsuc n

signed_value : Bytes → ℤ
unfolding digits_value
signed_value [] = pos 0
signed_value (c ∷ s) =
    if c == b'-'
    then negated (digits_value 0 s)
    else pos (if c == b'+' then digits_value 0 s else digits_value 0 (c ∷ s))

-- `atoi`; values beyond an int are undefined there, and are the number itself here.
unfoldable pub int_of : Bytes → ℤ
unfolding signed_value skip_spaces
int_of s = signed_value (skip_spaces s)

-- The decimal digits of `n` before `rest`, at most `fuel` of them.
decimal : ℕ → ℕ → Bytes → Bytes
decimal zero n rest = rest
decimal (suc fuel) n rest =
    let more = decimal fuel (n / 10) ((b'0' + n % 10) ∷ rest) in
    if ltb n 10 then (b'0' + n) ∷ rest else more

-- std::to_string of an int; a number has no more digits than its value and one.
unfoldable pub to_string : ℤ → Bytes
unfolding decimal
to_string (pos n) = decimal (n + 1) n []
to_string (negsuc n) = b'-' ∷ decimal (n + 2) (n + 1) []

abbrev IsDigit : ℕ → Type 0
IsDigit c = leb b'0' c && leb c b'9' ≡ true

decimal-IsDigit : (fuel n : ℕ) (rest : Bytes) → All IsDigit rest → All IsDigit (decimal fuel n rest)
unfolding decimal
decimal-IsDigit zero n rest h = h
decimal-IsDigit (suc fuel) n rest h = elim (Bool-cases (ltb n 10)) [
  | inl t ↦ rw t (ground arith, h)
  | inr t ↦ rw t (decimal-IsDigit fuel (n / 10) ((b'0' + n % 10) ∷ rest) (ground arith, h))
]

digits_value-digit :
    (n d : ℕ) (rest : Bytes)
    → d < 10
    → digits_value n ((b'0' + d) ∷ rest) ≡ digits_value (n * 10 + d) rest
unfolding digits_value
digits_value-digit n d rest l =
    let t : IsDigit (b'0' + d) = ground arith in rw t (ap (λ k. digits_value k rest) (omega arith))

digits_value-decimal :
    (fuel n : ℕ) (rest : Bytes)
    → n < fuel
    → digits_value 0 (decimal fuel n rest) ≡ digits_value n rest
unfolding decimal
digits_value-decimal zero n rest l = absurd (omega arith)
digits_value-decimal (suc fuel) n rest l = elim (Bool-cases (ltb n 10)) [
  | inl t ↦
      rw t
        (digits_value-digit 0 n rest (ground arith) ∙ ap (λ k. digits_value k rest) (omega arith))
  | inr t ↦
      let big : 10 ≤ n = ground arith in
      rw t (
        digits_value-decimal fuel (n / 10) ((b'0' + n % 10) ∷ rest) (omega arith)
        ∙ digits_value-digit (n / 10) (n % 10) rest (omega arith)
        ∙ ap (λ k. digits_value k rest) (omega arith))
]

signed_value-digits :
    (s : Bytes) → All IsDigit s → signed_value (skip_spaces s) ≡ pos (digits_value 0 s)
unfolding signed_value skip_spaces is_space digits_value
signed_value-digits [] h = refl
signed_value-digits (c ∷ s) h =
    let sp : is_space c ≡ false = ground (arith, h.0) in
    let minus : (c == b'-') ≡ false = ground (arith, h.0) in
    let plus : (c == b'+') ≡ false = ground (arith, h.0) in rw (sp, minus, plus) refl

decimal_lem : (fuel n : ℕ) → n < fuel → digits_value 0 (decimal fuel n []) ≡ n
unfolding digits_value
decimal_lem fuel n l = digits_value-decimal fuel n [] l

-- A number that is written is read back.
pub int_of-to_string : (z : ℤ) → int_of (to_string z) ≡ z
unfolding int_of to_string signed_value skip_spaces is_space
int_of-to_string (pos n) =
    signed_value-digits (decimal (n + 1) n []) (decimal-IsDigit (n + 1) n [] tt)
    ∙ ap pos (decimal_lem (n + 1) n (omega arith))
int_of-to_string (negsuc n) = ap negated (decimal_lem (n + 2) (n + 1) (omega arith) ∙ succ)
  where
    succ : n + 1 ≡ suc n
    succ = omega arith

abbrev pub IsUnspaced : Bytes → Type 0
IsUnspaced s = All (λ c. is_space c ≡ false) s

digits-IsUnspaced : (s : Bytes) → All IsDigit s → IsUnspaced s
unfolding is_space
digits-IsUnspaced [] h = tt
digits-IsUnspaced (c ∷ s) h = (ground (arith, h.0), digits-IsUnspaced s h.1)

pub to_string-IsUnspaced : (z : ℤ) → IsUnspaced (to_string z)
unfolding to_string is_space
to_string-IsUnspaced (pos n) =
    digits-IsUnspaced (decimal (n + 1) n []) (decimal-IsDigit (n + 1) n [] tt)
to_string-IsUnspaced (negsuc n) =
    (refl, digits-IsUnspaced (decimal (n + 2) (n + 1) []) (decimal-IsDigit (n + 2) (n + 1) [] tt))
