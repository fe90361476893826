-- ===== src/StringProcessor/Numbers.antt =====
-- lib/lib-jsonrpc-tcp/include/ADCommon.hpp: numbers that are printed with `%d` and read back with
-- `atoi` or `%lu`.
use Prim.Native.Char.{Char, code}
use Prim.Native.String.{String}
use jsonrpc_tcp_srv.Prelude.{
  ℕ, zero, suc, ◌+◌, ◌*◌, ◌/◌, ◌%◌, ◌-◌, ◌<◌, false, leb, ◌==◌, if◌then◌else◌, pos, ◌≡◌, refl, ◌∙◌,
  ap, arith, Bool-cases, inl, inr,
}
use jsonrpc_tcp_srv.StringProcessor.{
  is_space, is_digit, digits_from, signed, skip_space, atoi, starts_digit, scan_digits, scan_signed,
  sscanf_lu, ulong_of, ulong_mod,
}

-- The character of a decimal digit.
pub digit : ℕ → Char
digit zero = "0"
digit (suc zero) = "1"
digit (suc (suc zero)) = "2"
digit (suc (suc (suc zero))) = "3"
digit (suc (suc (suc (suc zero)))) = "4"
digit (suc (suc (suc (suc (suc zero))))) = "5"
digit (suc (suc (suc (suc (suc (suc zero)))))) = "6"
digit (suc (suc (suc (suc (suc (suc (suc zero))))))) = "7"
digit (suc (suc (suc (suc (suc (suc (suc (suc zero)))))))) = "8"
digit _ = "9"

digits_onto : ℕ → ℕ → String → String
digits_onto zero n s = s
digits_onto (suc fuel) n s =
    let rest = digits_onto fuel (n / 10) (String.◌∷◌ (digit (n % 10)) s) in
    if n / 10 == 0 then String.◌∷◌ (digit (n % 10)) s else rest

-- `sprintf("%d")` of a number that is not negative; a number has fewer digits than its value plus 1.
unfoldable pub decimal : ℕ → String
unfolding digits_onto
decimal n = digits_onto (suc n) n String.[]

code-digit : (d : ℕ) → d < 10 → code (digit d) ≡ b'0' + d
unfolding digit
code-digit zero h = refl
code-digit (suc zero) h = refl
code-digit (suc (suc zero)) h = refl
code-digit (suc (suc (suc zero))) h = refl
code-digit (suc (suc (suc (suc zero)))) h = refl
code-digit (suc (suc (suc (suc (suc zero))))) h = refl
code-digit (suc (suc (suc (suc (suc (suc zero)))))) h = refl
code-digit (suc (suc (suc (suc (suc (suc (suc zero))))))) h = refl
code-digit (suc (suc (suc (suc (suc (suc (suc (suc zero)))))))) h = refl
code-digit (suc (suc (suc (suc (suc (suc (suc (suc (suc zero))))))))) h = refl
code-digit (suc (suc (suc (suc (suc (suc (suc (suc (suc (suc d)))))))))) h = absurd (omega arith)

digits_from-digit :
    (m d : ℕ) (s : String)
    → d < 10
    → digits_from m (String.◌∷◌ (digit d) s) ≡ digits_from (m * 10 + d) s
unfolding digits_from is_digit
digits_from-digit m d s h = ground (arith, code-digit d h)

-- A text that begins with its number: no space, no sign.
record Starts (s : String) : Type 0 where
  unspaced : skip_space s ≡ s
  unsigned : signed s ≡ pos (digits_from 0 s)
  scanned : (tmp : ℕ) → scan_signed tmp s ≡ ulong_of false (digits_from 0 s)

digit-Starts : (d : ℕ) (s : String) → d < 10 → Starts (String.◌∷◌ (digit d) s)
unfolding skip_space is_space signed scan_signed scan_digits starts_digit is_digit
digit-Starts d s h = record {
  unspaced = ground (arith, code-digit d h);
  unsigned = ground (arith, code-digit d h);
  scanned = λ tmp. ground (arith, code-digit d h);
}

digits_onto-Starts :
    (fuel n : ℕ) (s : String)
    → n < fuel
    → Starts (digits_onto fuel n s) × (digits_from 0 (digits_onto fuel n s) ≡ digits_from n s)
unfolding digits_onto
digits_onto-Starts zero n s h = absurd (omega arith)
digits_onto-Starts (suc fuel) n s h = elim (Bool-cases (n / 10 == 0)) [
  | inl e ↦ rw e (
    digit-Starts (n % 10) s (omega arith),
    digits_from-digit 0 (n % 10) s (omega arith) ∙ ap (λ m. digits_from m s) (ground arith),
  )
  | inr e ↦
      let rest = digits_onto-Starts fuel (n / 10) (String.◌∷◌ (digit (n % 10)) s) (ground arith) in
      rw e (
        rest.0,
        rest.1
            ∙ digits_from-digit (n / 10) (n % 10) s (omega arith)
            ∙ ap (λ m. digits_from m s) (omega arith),
      )
]

-- A number that was printed is read back by `atoi`, and by `%lu` up to the largest unsigned long,
-- above which it gives that.
pub atoi-decimal : (n : ℕ) → atoi (decimal n) ≡ pos n
unfolding atoi decimal digits_from
atoi-decimal n =
    let k = digits_onto-Starts (suc n) n String.[] (omega arith) in
    ap signed k.0.unspaced ∙ k.0.unsigned ∙ ap pos k.1

sscanf_lu-decimal :
    (tmp n : ℕ) → sscanf_lu tmp (decimal n) ≡ (if leb ulong_mod n then ulong_mod - 1 else n)
unfolding sscanf_lu decimal digits_from ulong_of
sscanf_lu-decimal tmp n =
    let k = digits_onto-Starts (suc n) n String.[] (omega arith) in
    ap (scan_signed tmp) k.0.unspaced ∙ k.0.scanned tmp ∙ ap (ulong_of false) k.1 ∙ ground arith
