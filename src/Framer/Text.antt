-- ===== src/Framer/Text.antt =====
-- JSON texts as a client may write them: the independent description that the framer is held to.
use jsonrpc_tcp_srv.Prelude.{ℕ, Bool, true, false, not, ◌||◌, List, [], ◌∷◌, ◌++◌, ◌==◌, All, ◌≡◌}
use jsonrpc_tcp_srv.Framer.{Bytes, is_open, is_close, is_separator}

-- A character of a string as it is written: a byte for itself, or the byte behind a backslash. `\u00e4` is the
-- escaped byte `u` and four bytes for themselves.
pub data Letter : Type 0 where
  plain_byte : ℕ → Letter
  escaped : ℕ → Letter

-- `atom` is a number, `true`, `false` or `null`, by its bytes. White space may stand around every value
-- (`spaced`), on both sides of every key, and before the closing bracket (`nil`, `end`).
mutual
  pub data Value : Type 0 where
    atom : Bytes → Value
    str : List Letter → Value
    spaced : Bytes → Value → Bytes → Value
    arr : Values → Value
    obj : Members → Value

  pub data Values : Type 0 where
    nil : Bytes → Values
    value : Value → Values → Values

  pub data Members : Type 0 where
    end : Bytes → Members
    member : Bytes → List Letter → Bytes → Value → Members → Members

unfoldable pub letters : List Letter → Bytes
letters [] = []
letters (plain_byte c ∷ ls) = c ∷ letters ls
letters (escaped c ∷ ls) = b'\\' ∷ c ∷ letters ls

abbrev pub print_string : List Letter → Bytes
print_string s = b'"' ∷ (letters s ++ b'"' ∷ [])

abbrev pub print_key : Bytes → List Letter → Bytes → Bytes
print_key before k behind = before ++ (print_string k ++ (behind ++ b':' ∷ []))

unfoldable mutual
  pub print : Value → Bytes
  print (atom a) = a
  print (str s) = print_string s
  print (spaced before v behind) = before ++ (print v ++ behind)
  print (arr (nil b)) = b'[' ∷ (b ++ b']' ∷ [])
  print (arr (value v vs)) = b'[' ∷ ((print v ++ print_values vs) ++ b']' ∷ [])
  print (obj (end b)) = b'{' ∷ (b ++ b'}' ∷ [])
  print (obj (member b k b' v ms)) =
      b'{' ∷ ((print_key b k b' ++ (print v ++ print_members ms)) ++ b'}' ∷ [])

  -- What follows the first item, with a comma before each.
  pub print_values : Values → Bytes
  print_values (nil b) = b
  print_values (value v vs) = b',' ∷ [] ++ (print v ++ print_values vs)

  pub print_members : Members → Bytes
  print_members (end b) = b
  print_members (member b k b' v ms) =
      b',' ∷ [] ++ (print_key b k b' ++ (print v ++ print_members ms))

-- A byte that a message may hold outside its strings and brackets.
unfoldable pub is_plain : ℕ → Bool
unfolding is_open is_close
is_plain c = not (c == b'"' || is_open c || is_close c)

-- The white space of JSON.
unfoldable pub is_blank : ℕ → Bool
is_blank c = (c == b' ' || c == b'\t') || (c == b'\n' || c == b'\r')

abbrev pub AreBlank : Bytes → Type 0
AreBlank = All (λ c. is_blank c ≡ true)

-- A byte that stands for itself in a string is neither a quote nor a backslash.
unfoldable pub IsLetter : Letter → Type 0
IsLetter (plain_byte c) = (c == b'"' || c == b'\\') ≡ false
IsLetter (escaped c) = Unit {0}

-- The atoms of a text are plain.
unfoldable mutual
  pub IsText : Value → Type 0
  IsText (atom a) = All (λ c. is_plain c ≡ true) a
  IsText (str s) = All IsLetter s
  IsText (spaced before v behind) = AreBlank before × IsText v × AreBlank behind
  IsText (arr vs) = AreTexts vs
  IsText (obj ms) = AreMembers ms

  pub AreTexts : Values → Type 0
  AreTexts (nil b) = AreBlank b
  AreTexts (value v vs) = IsText v × AreTexts vs

  pub AreMembers : Members → Type 0
  AreMembers (end b) = AreBlank b
  AreMembers (member b k b' v ms) =
      AreBlank b × All IsLetter k × AreBlank b' × IsText v × AreMembers ms

-- The texts that stand at the top of a stream.
unfoldable pub is_message : Value → Bool
is_message (arr vs) = true
is_message (obj ms) = true
is_message _ = false

abbrev pub AreSeparators : Bytes → Type 0
AreSeparators = All (λ c. is_separator c ≡ true)
