-- ===== src/Framer/Spec.antt =====
-- What the framer promises, one byte at a time: no buffer, no index, no compaction. It has the
-- bytes of the unfinished message and the finished messages.
use jsonrpc_tcp_srv.Prelude.{
  ℕ, ◌+◌, ◌-◌, Bool, true, false, not, List, [], ◌∷◌, ◌++◌, ltb, ◌==◌, if◌then◌else◌, length, ◌≡◌,
  refl,
}
use jsonrpc_tcp_srv.Framer.{Bytes, Framer, is_separator, is_open, is_close}

pub record View : Type 0 where
  pub partial : Bytes
  pub ready : List Bytes
  pub depth : ℕ
  pub in_string : Bool
  pub escape : Bool
  pub error : Bool

-- The view of a framer between two calls.
abbrev pub view : Framer → View
view f = record {
  partial = f.buf;
  ready = f.ready;
  depth = f.depth;
  in_string = f.in_string;
  escape = f.escape;
  error = f.error;
}

-- The stream is given up: finished messages stay.
abbrev pub fail : View → View
fail v = record v { partial = []; depth = 0; error = true }

abbrev grow : View → ℕ → View
grow v c = record v { partial = v.partial ++ c ∷ [] }

read_outside : View → ℕ → View
read_outside v c =
    if is_separator c
    then v
    else if not (is_open c)
    then fail v
    else record v { partial = c ∷ []; depth = 1; in_string = false; escape = false }

read_string : View → ℕ → View
read_string v c =
    if v.escape
    then record v { escape = false }
    else if c == b'\\'
    then record v { escape = true }
    else if c == b'"'
    then record v { in_string = false }
    else v

read_close : View → View
read_close v =
    if v.depth == 1
    then record v { partial = []; depth = 0; ready = v.ready ++ v.partial ∷ [] }
    else record v { depth = v.depth - 1 }

read_inside : ℕ → View → ℕ → View
read_inside max_msg v c =
    if ltb max_msg (length v.partial + 1)
    then fail v
    else if v.in_string
    then read_string (grow v c) c
    else if c == b'"'
    then record (grow v c) { in_string = true }
    else if is_open c
    then record (grow v c) { depth = v.depth + 1 }
    else if is_close c
    then read_close (grow v c)
    else grow v c

unfoldable pub read_byte : ℕ → View → ℕ → View
unfolding read_outside read_inside read_string read_close
read_byte max_msg v c =
    if v.error then v else if v.depth == 0 then read_outside v c else read_inside max_msg v c

unfoldable pub read : ℕ → View → Bytes → View
read max_msg v [] = v
read max_msg v (c ∷ cs) = read max_msg (read_byte max_msg v c) cs

pub read-append :
    (max_msg : ℕ) (v : View) (xs ys : Bytes)
    → read max_msg v (xs ++ ys) ≡ read max_msg (read max_msg v xs) ys
unfolding read
read-append max_msg v [] ys = refl
read-append max_msg v (x ∷ xs) ys = read-append max_msg (read_byte max_msg v x) xs ys

read_byte-error : (max_msg : ℕ) (v : View) (c : ℕ) → v.error ≡ true → read_byte max_msg v c ≡ v
unfolding read_byte
read_byte-error max_msg v c e = rw e

-- A stream that was given up reads no more.
pub read-error : (max_msg : ℕ) (v : View) (xs : Bytes) → v.error ≡ true → read max_msg v xs ≡ v
unfolding read
read-error max_msg v [] e = refl
read-error max_msg v (x ∷ xs) e = rw (read_byte-error max_msg v x e) (read-error max_msg v xs e)
