-- ===== src/XmppMgr/Pieces.antt =====
-- services/xmproxy/srv/src/XmppMgr.cpp: what the pieces of an alias command and of a line are.
use jsonrpc_tcp_srv.Prelude.{
  ℕ, false, List, [], ◌∷◌, ◌++◌, Option, none, some, ◌==◌, any, append_assoc, ◌≡◌, refl, ap, subst,
  ◌∙◌, arith, Bool-cases, inl, inr,
}
use jsonrpc_tcp_srv.Framer.{Bytes}
use jsonrpc_tcp_srv.XmppMgr.Aliases.{
  cut, lines, skip_spaces, past_word, key_of, second_piece, alias_set, line_of, load_lines,
  load_alias_list,
}

-- The byte is not in the text.
abbrev pub IsFree : ℕ → Bytes → Type 0
IsFree d s = any (λ c. c == d) s ≡ false

cut-IsFree : (d : ℕ) (s : Bytes) → IsFree d (cut d s).0
unfolding cut
cut-IsFree d [] = refl
cut-IsFree d (x ∷ xs) = elim (Bool-cases (x == d)) [
  | inl e ↦ rw e refl
  | inr e ↦ ground (arith, cut-IsFree d xs)
]

cut-keeps : (c d : ℕ) (s : Bytes) → IsFree c s → IsFree c (cut d s).0
unfolding cut
cut-keeps c d [] h = refl
cut-keeps c d (x ∷ xs) h = elim (Bool-cases (x == d)) [
  | inl e ↦ rw e refl
  | inr e ↦ ground (arith, cut-keeps c d xs (ground arith))
]

rest-keeps : (c d : ℕ) (s r : Bytes) → IsFree c s → (cut d s).1 ≡ some r → IsFree c r
unfolding cut
rest-keeps c d [] r h e = absurd (ground arith)
rest-keeps c d (x ∷ xs) r h e = elim (Bool-cases (x == d)) [
  | inl k ↦ let is : xs ≡ r = ground arith in subst (IsFree c) is (ground arith)
  | inr k ↦ rest-keeps c d xs r (ground arith) (ground arith)
]

skip_spaces-IsFree : (c : ℕ) (s : Bytes) → IsFree c s → IsFree c (skip_spaces s)
unfolding skip_spaces
skip_spaces-IsFree c [] h = refl
skip_spaces-IsFree c (x ∷ xs) h = ground (arith, skip_spaces-IsFree c xs (ground arith))

past_word-IsFree : (c : ℕ) (s : Bytes) → IsFree c s → IsFree c (past_word s)
unfolding past_word
past_word-IsFree c [] h = refl
past_word-IsFree c (x ∷ xs) h = ground (arith, past_word-IsFree c xs (ground arith))

-- A key has neither an equals sign nor a newline.
pub key_of-IsFree :
    (msg : Bytes) → IsFree b'=' (key_of (cut b'=' msg).0) × IsFree b'\n' (key_of (cut b'=' msg).0)
unfolding key_of
key_of-IsFree msg =
    let cmd = (cut b'=' msg).0 in
    let behind = past_word (skip_spaces cmd) in
    (
      skip_spaces-IsFree b'=' (cut b'\n' behind).0 (
          cut-keeps b'=' b'\n' behind (
            past_word-IsFree b'=' (skip_spaces cmd)
              (skip_spaces-IsFree b'=' cmd (cut-IsFree b'=' msg)))),
      skip_spaces-IsFree b'\n' (cut b'\n' behind).0 (cut-IsFree b'\n' behind),
    )

-- A value has no equals sign, and no newline when the command has none.
pub second_piece-IsFree :
    (msg : Bytes) (r : Option Bytes)
    → (cut b'=' msg).1 ≡ r
    → IsFree b'\n' msg
    → IsFree b'=' (second_piece r) × IsFree b'\n' (second_piece r)
unfolding second_piece
second_piece-IsFree msg none e h = (refl, refl)
second_piece-IsFree msg (some r) e h =
    (cut-IsFree b'=' r, cut-keeps b'\n' b'=' r (rest-keeps b'\n' b'=' msg r h e))

pub lines-line : (l file : Bytes) → IsFree b'\n' l → lines (l ++ b'\n' ∷ file) ≡ l ∷ lines file
unfolding lines
lines-line [] file h = refl
lines-line (x ∷ l) file h =
    let other : (x == b'\n') ≡ false = ground arith in
    rw (other, lines-line l file (ground arith)) refl

pub cut-found : (d : ℕ) (s t : Bytes) → IsFree d s → cut d (s ++ d ∷ t) ≡ (s, some t)
unfolding cut
cut-found d [] t h = ground arith
cut-found d (x ∷ s) t h =
    let other : (x == d) ≡ false = ground arith in rw (other, cut-found d s t (ground arith)) refl

pub cut-whole : (d : ℕ) (s : Bytes) → IsFree d s → (cut d s).0 ≡ s
unfolding cut
cut-whole d [] h = refl
cut-whole d (x ∷ s) h =
    let other : (x == d) ≡ false = ground arith in
    rw other (ap (λ p. x ∷ p) (cut-whole d s (ground arith)))

pub IsFree-append : (d : ℕ) (s t : Bytes) → IsFree d s → IsFree d t → IsFree d (s ++ t)
IsFree-append d [] t h k = k
IsFree-append d (x ∷ s) t h k = ground (arith, IsFree-append d s t (ground arith) k)

-- An entry that a line can hold.
pub record IsClean (e : Bytes × Bytes) : Type 0 where
  pub unequal : IsFree b'=' e.0
  pub unbroken : IsFree b'\n' e.0
  pub value_unequal : IsFree b'=' e.1
  pub value_unbroken : IsFree b'\n' e.1

-- A line that was written is read back.
pub load_alias_list-line :
    (k v file : Bytes) (es : List (Bytes × Bytes))
    → IsClean (k, v)
    → load_alias_list (line_of k v ++ file) es ≡ load_alias_list file (alias_set k v es)
unfolding load_alias_list load_lines line_of second_piece
load_alias_list-line k v file es h =
    let l = k ++ b'=' ∷ v in
    let whole : line_of k v ++ file ≡ l ++ b'\n' ∷ file = append_assoc l (b'\n' ∷ []) file in
    let free : IsFree b'\n' l = IsFree-append b'\n' k (b'=' ∷ v) h.unbroken h.value_unbroken in
    ap (λ t. load_lines (lines t) es) whole
    ∙ ap (λ ls. load_lines ls es) (lines-line l file free)
    ∙ ap (λ c. load_lines (lines file) (alias_set c.0 (second_piece c.1) es))
        (cut-found b'=' k v h.unequal)
    ∙ ap (λ u. load_lines (lines file) (alias_set k u es)) (cut-whole b'=' v h.value_unequal)
