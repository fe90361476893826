-- ===== src/Framer/Passes.antt =====
-- The bytes that take the scanner of ADJsonStreamFramer through a part of a message.
use jsonrpc_tcp_srv.Prelude.{
  ℕ, suc, ◌+◌, ◌≤◌, true, false, List, [], ◌∷◌, ◌++◌, ◌==◌, length, length-append, All,
  append_assoc, append-nil, ◌≡◌, refl, ap, ◌∙◌, arith, ◌||◌,
}
use jsonrpc_tcp_srv.Framer.Spec.{View, read, read_byte, read-append}
use jsonrpc_tcp_srv.Framer.Text.{
  Letter, plain_byte, escaped, letters, print_string, print_key, is_plain, is_blank, AreBlank,
  IsLetter,
}
use jsonrpc_tcp_srv.Framer.{Bytes, is_open, is_close}

-- Within a message, outside a string.
abbrev pub within : Bytes → List Bytes → ℕ → View
within p ready d = record {
  partial = p;
  ready = ready;
  depth = d;
  in_string = false;
  escape = false;
  error = false;
}

-- Between two messages.
abbrev pub idle : List Bytes → View
idle ready = within [] ready 0

-- These bytes leave the scanner as deep as it was.
abbrev pub Passes : Bytes → Type 0
Passes s =
    (m : ℕ) (p : Bytes) (ready : List Bytes) (d : ℕ)
    → 1 ≤ d
    → length p + length s ≤ m
    → read m (within p ready d) s ≡ within (p ++ s) ready d

pub Passes-nil : Passes []
unfolding read
Passes-nil m p ready d h k = rw append-nil

pub Passes-append : (a b : Bytes) → Passes a → Passes b → Passes (a ++ b)
Passes-append a b ha hb m p ready d h k =
    read-append m (within p ready d) a b
    ∙ ap (λ v. read m v b) (ha m p ready d h (omega (arith, length-append a b)))
    ∙ hb m (p ++ a) ready d h (omega (arith, length-append a b, length-append p a))
    ∙ ap (λ q. within q ready d) (append_assoc p a b)

Passes-byte : (c : ℕ) → is_plain c ≡ true → Passes (c ∷ [])
unfolding read read_byte is_plain
Passes-byte c e m p ready d h k = ground arith

pub Passes-All : (a : Bytes) → All (λ c. is_plain c ≡ true) a → Passes a
Passes-All [] h = Passes-nil
Passes-All (c ∷ cs) h = Passes-append (c ∷ []) cs (Passes-byte c h.0) (Passes-All cs h.1)

-- Within a string.
abbrev quoted : Bytes → List Bytes → ℕ → View
quoted p ready d = record (within p ready d) { in_string = true }

module _ (m : ℕ) (p : Bytes) (ready : List Bytes) (d : ℕ) (h : 1 ≤ d) where
  read_byte-quoted :
      (c : ℕ)
      → (c == b'"' || c == b'\\') ≡ false
      → length p + 1 ≤ m
      → read_byte m (quoted p ready d) c ≡ quoted (p ++ c ∷ []) ready d
  unfolding read_byte
  read_byte-quoted c e k = ground arith

  read_byte-escaped :
      (c : ℕ)
      → length p + 2 ≤ m
      → read_byte m (read_byte m (quoted p ready d) b'\\') c
        ≡ quoted ((p ++ b'\\' ∷ []) ++ c ∷ []) ready d
  unfolding read_byte
  read_byte-escaped c k = ground (arith, length-append p (b'\\' ∷ []))

  read_byte-opened :
      length p + 1 ≤ m → read_byte m (within p ready d) b'"' ≡ quoted (p ++ b'"' ∷ []) ready d
  unfolding read_byte
  read_byte-opened k = ground arith

  read_byte-closed :
      length p + 1 ≤ m → read_byte m (quoted p ready d) b'"' ≡ within (p ++ b'"' ∷ []) ready d
  unfolding read_byte
  read_byte-closed k = ground arith

-- The letters, up to the quote that ends the string.
read-letters :
    (s : List Letter) (m : ℕ) (p : Bytes) (ready : List Bytes) (d : ℕ)
    → All IsLetter s
    → 1 ≤ d
    → length p + length (letters s) + 1 ≤ m
    → read m (quoted p ready d) (letters s ++ b'"' ∷ [])
      ≡ within (p ++ (letters s ++ b'"' ∷ [])) ready d
unfolding read letters IsLetter
read-letters [] m p ready d t h k = read_byte-closed m p ready d h (omega arith)
read-letters (escaped c ∷ cs) m p ready d t h k =
    ap (λ v. read m v (letters cs ++ b'"' ∷ [])) (read_byte-escaped m p ready d h c (omega arith))
    ∙ read-letters cs m ((p ++ b'\\' ∷ []) ++ c ∷ []) ready d t.1 h
        (omega (arith, length-append p (b'\\' ∷ []), length-append (p ++ b'\\' ∷ []) (c ∷ [])))
    ∙ ap (λ q. within q ready d)
        (append_assoc (p ++ b'\\' ∷ []) (c ∷ []) _ ∙ append_assoc p (b'\\' ∷ []) _)
read-letters (plain_byte c ∷ cs) m p ready d t h k =
    ap (λ v. read m v (letters cs ++ b'"' ∷ []))
      (read_byte-quoted m p ready d h c t.0 (omega arith))
    ∙ read-letters cs m (p ++ c ∷ []) ready d t.1 h (omega (arith, length-append p (c ∷ [])))
    ∙ ap (λ q. within q ready d) (append_assoc p (c ∷ []) _)

pub Passes-string : (s : List Letter) → All IsLetter s → Passes (print_string s)
unfolding read
Passes-string s t m p ready d h k =
    ap (λ v. read m v (letters s ++ b'"' ∷ [])) (read_byte-opened m p ready d h (omega arith))
    ∙ read-letters s m (p ++ b'"' ∷ []) ready d t h
        (omega (arith, length-append p (b'"' ∷ []), length-append (letters s) (b'"' ∷ [])))
    ∙ ap (λ q. within q ready d) (append_assoc p (b'"' ∷ []) _)

read_byte-deeper :
    (o m : ℕ) (p : Bytes) (ready : List Bytes) (d : ℕ)
    → is_open o ≡ true
    → 1 ≤ d
    → length p + 1 ≤ m
    → read_byte m (within p ready d) o ≡ within (p ++ o ∷ []) ready (suc d)
unfolding read_byte is_open
read_byte-deeper o m p ready d e h k = ground arith

read_byte-higher :
    (c m : ℕ) (p : Bytes) (ready : List Bytes) (d : ℕ)
    → is_close c ≡ true
    → 1 ≤ d
    → length p + 1 ≤ m
    → read_byte m (within p ready (suc d)) c ≡ within (p ++ c ∷ []) ready d
unfolding read_byte is_open is_close
read_byte-higher c m p ready d e h k = ground arith

pub Passes-group :
    (o c : ℕ) (body : Bytes)
    → is_open o ≡ true
    → is_close c ≡ true
    → Passes body
    → Passes (o ∷ (body ++ c ∷ []))
unfolding read
Passes-group o c body ho hc hb m p ready d h k =
    ap (λ v. read m v (body ++ c ∷ [])) (read_byte-deeper o m p ready d ho h (omega arith))
    ∙ read-append m (within (p ++ o ∷ []) ready (suc d)) body (c ∷ [])
    ∙ ap (λ v. read m v (c ∷ []))
        (hb m (p ++ o ∷ []) ready (suc d) (omega arith)
          (omega (arith, length-append p (o ∷ []), length-append body (c ∷ []))))
    ∙ read_byte-higher c m ((p ++ o ∷ []) ++ body) ready d hc h (
        omega (
          arith,
          length-append p (o ∷ []),
          length-append (p ++ o ∷ []) body,
          length-append body (c ∷ []),
        ))
    ∙ ap (λ q. within q ready d)
        (append_assoc (p ++ o ∷ []) body (c ∷ []) ∙ append_assoc p (o ∷ []) (body ++ c ∷ []))

pub Passes-comma : Passes (b',' ∷ [])
unfolding is_plain
Passes-comma = Passes-byte b',' refl

blank-plain : (b : Bytes) → AreBlank b → All (λ c. is_plain c ≡ true) b
unfolding is_plain is_blank is_open is_close
blank-plain [] h = tt
blank-plain (c ∷ cs) h = (ground (arith, h.0), blank-plain cs h.1)

pub Passes-blank : (b : Bytes) → AreBlank b → Passes b
Passes-blank b h = Passes-All b (blank-plain b h)

pub Passes-key :
    (b : Bytes) (k : List Letter) (b' : Bytes)
    → AreBlank b
    → All IsLetter k
    → AreBlank b'
    → Passes (print_key b k b')
unfolding is_plain
Passes-key b k b' h t h' =
    Passes-append b (print_string k ++ (b' ++ b':' ∷ [])) (Passes-blank b h) (
      Passes-append (print_string k) (b' ++ b':' ∷ []) (Passes-string k t)
        (Passes-append b' (b':' ∷ []) (Passes-blank b' h') (Passes-byte b':' refl)))
