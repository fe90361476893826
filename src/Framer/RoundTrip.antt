-- ===== src/Framer/RoundTrip.antt =====
-- ADJsonStreamFramer::feed finds every JSON text of a stream again.
use jsonrpc_tcp_srv.Prelude.{
  ℕ, ◌+◌, ◌≤◌, true, List, [], ◌∷◌, ◌++◌, map, length, length-append, All, append_assoc, append-nil,
  pos, ◌≡◌, refl, ap, ◌∙◌, arith,
}
use jsonrpc_tcp_srv.Framer.Spec.{view, read, read_byte, read-append}
use jsonrpc_tcp_srv.Framer.Text.{
  Letter, Value, atom, str, spaced, arr, obj, Values, nil, value, Members, end, member, print_key,
  print, print_values, print_members, IsText, AreTexts, AreMembers, AreBlank, IsLetter, is_message,
  AreSeparators,
}
use jsonrpc_tcp_srv.Framer.Passes.{
  within, idle, Passes, Passes-append, Passes-All, Passes-string, Passes-group, Passes-comma,
  Passes-blank, Passes-key,
}
use jsonrpc_tcp_srv.Framer.Refine.{IsResting, view-feed, result_of}
use jsonrpc_tcp_srv.Framer.{Bytes, Framer, is_open, is_close, is_separator, feed}

Passes-pair :
    (b : Bytes) (k : List Letter) (b' body : Bytes)
    → AreBlank b
    → All IsLetter k
    → AreBlank b'
    → Passes body
    → Passes (print_key b k b' ++ body)
Passes-pair b k b' body h t h' hb =
    Passes-append (print_key b k b') body (Passes-key b k b' h t h') hb

mutual
  unfolding print IsText is_open is_close

  Passes-print : (v : Value) → IsText v → Passes (print v)
  Passes-print (atom a) t = Passes-All a t
  Passes-print (str s) t = Passes-string s t
  Passes-print (spaced b v b') t =
      Passes-append b (print v ++ b') (Passes-blank b t.0)
        (Passes-append (print v) b' (Passes-print v t.1) (Passes-blank b' t.2))
  Passes-print (arr (nil b)) t = Passes-group b'[' b']' b refl refl (Passes-blank b t)
  Passes-print (arr (value v vs)) t =
      Passes-group b'[' b']' (print v ++ print_values vs) refl refl (
        Passes-append (print v) (print_values vs) (Passes-print v t.0) (Passes-print_values vs t.1))
  Passes-print (obj (end b)) t = Passes-group b'{' b'}' b refl refl (Passes-blank b t)
  Passes-print (obj (member b k b' v ms)) t =
      Passes-group b'{' b'}' (print_key b k b' ++ (print v ++ print_members ms)) refl refl (
        Passes-pair b k b' (print v ++ print_members ms) t.0 t.1 t.2 (
          Passes-append (print v) (print_members ms) (Passes-print v t.3)
            (Passes-print_members ms t.4)))

  Passes-print_values : (vs : Values) → AreTexts vs → Passes (print_values vs)
  Passes-print_values (nil b) t = Passes-blank b t
  Passes-print_values (value v vs) t =
      Passes-append (b',' ∷ []) (print v ++ print_values vs) Passes-comma (
        Passes-append (print v) (print_values vs) (Passes-print v t.0) (Passes-print_values vs t.1))

  Passes-print_members : (ms : Members) → AreMembers ms → Passes (print_members ms)
  Passes-print_members (end b) t = Passes-blank b t
  Passes-print_members (member b k b' v ms) t =
      Passes-append (b',' ∷ []) (print_key b k b' ++ (print v ++ print_members ms)) Passes-comma (
        Passes-pair b k b' (print v ++ print_members ms) t.0 t.1 t.2 (
          Passes-append (print v) (print_members ms) (Passes-print v t.3)
            (Passes-print_members ms t.4)))

read_byte-first :
    (m o : ℕ) (ready : List Bytes)
    → is_open o ≡ true
    → read_byte m (idle ready) o ≡ within (o ∷ []) ready 1
unfolding read_byte is_open is_separator
read_byte-first m o ready h = ground arith

read_byte-last :
    (m c : ℕ) (p : Bytes) (ready : List Bytes)
    → is_close c ≡ true
    → length p + 1 ≤ m
    → read_byte m (within p ready 1) c ≡ idle (ready ++ (p ++ c ∷ []) ∷ [])
unfolding read_byte is_open is_close
read_byte-last m c p ready h k = ground arith

read_group :
    (m o c : ℕ) (body : Bytes) (ready : List Bytes)
    → is_open o ≡ true
    → is_close c ≡ true
    → Passes body
    → length (o ∷ (body ++ c ∷ [])) ≤ m
    → read m (idle ready) (o ∷ (body ++ c ∷ [])) ≡ idle (ready ++ (o ∷ (body ++ c ∷ [])) ∷ [])
unfolding read
read_group m o c body ready ho hc hb k =
    ap (λ v. read m v (body ++ c ∷ [])) (read_byte-first m o ready ho)
    ∙ read-append m (within (o ∷ []) ready 1) body (c ∷ [])
    ∙ ap (λ v. read m v (c ∷ []))
        (hb m (o ∷ []) ready 1 (omega arith) (omega (arith, length-append body (c ∷ []))))
    ∙ read_byte-last m c (o ∷ body) ready hc (omega (arith, length-append body (c ∷ [])))

read-print :
    (m : ℕ) (v : Value) (ready : List Bytes)
    → IsText v
    → is_message v ≡ true
    → length (print v) ≤ m
    → read m (idle ready) (print v) ≡ idle (ready ++ print v ∷ [])
unfolding print is_message IsText is_open is_close
read-print m (atom a) ready t s k = cc
read-print m (str a) ready t s k = cc
read-print m (spaced b v b') ready t s k = cc
read-print m (arr (nil b)) ready t s k =
    read_group m b'[' b']' b ready refl refl (Passes-blank b t) k
read-print m (arr (value v vs)) ready t s k =
    read_group m b'[' b']' (print v ++ print_values vs) ready refl refl
      (Passes-append (print v) (print_values vs) (Passes-print v t.0) (Passes-print_values vs t.1))
      k
read-print m (obj (end b)) ready t s k =
    read_group m b'{' b'}' b ready refl refl (Passes-blank b t) k
read-print m (obj (member b x b' v ms)) ready t s k =
    read_group m b'{' b'}' (print_key b x b' ++ (print v ++ print_members ms)) ready refl refl
      (Passes-pair b x b' (print v ++ print_members ms) t.0 t.1 t.2 (
        Passes-append (print v) (print_members ms) (Passes-print v t.3)
          (Passes-print_members ms t.4)))
      k

read_byte-separator :
    (m c : ℕ) (ready : List Bytes) → is_separator c ≡ true → read_byte m (idle ready) c ≡ idle ready
unfolding read_byte
read_byte-separator m c ready h = ground arith

pub read-separators :
    (m : ℕ) (s : Bytes) (ready : List Bytes) → AreSeparators s → read m (idle ready) s ≡ idle ready
unfolding read
read-separators m [] ready h = refl
read-separators m (c ∷ cs) ready h =
    ap (λ v. read m v cs) (read_byte-separator m c ready h.0) ∙ read-separators m cs ready h.1

-- What a client sends: texts, each behind its separators.
pub stream : List (Bytes × Value) → Bytes
stream [] = []
stream ((s, v) ∷ items) = s ++ (print v ++ stream items)

abbrev pub IsSent : ℕ → Bytes × Value → Type 0
IsSent m (s, v) = AreSeparators s × IsText v × (is_message v ≡ true) × (length (print v) ≤ m)

abbrev pub texts : List (Bytes × Value) → List Bytes
texts = map (λ i. print i.1)

pub read-stream :
    (m : ℕ) (items : List (Bytes × Value)) (ready : List Bytes)
    → All (IsSent m) items
    → read m (idle ready) (stream items) ≡ idle (ready ++ texts items)
unfolding stream read
read-stream m [] ready h = rw append-nil
read-stream m ((s, v) ∷ items) ready (h, hs) =
    read-append m (idle ready) s (print v ++ stream items)
    ∙ ap (λ w. read m w (print v ++ stream items)) (read-separators m s ready h.0)
    ∙ read-append m (idle ready) (print v) (stream items)
    ∙ ap (λ w. read m w (stream items)) (read-print m v ready h.1 h.2 h.3)
    ∙ read-stream m items (ready ++ print v ∷ []) hs
    ∙ ap idle (append_assoc ready (print v ∷ []) (texts items))

-- A framer that holds no unfinished message and has met no error reads a stream of JSON objects and
-- arrays, with any white space and any escapes in their strings, none longer than `max_msg`, with
-- separators before each and behind the last: it queues
-- exactly the texts sent, in order, keeps nothing else, and returns the number of messages that wait.
pub feed-stream :
    (f : Framer) (items : List (Bytes × Value)) (seps : Bytes)
    → IsResting f
    → view f ≡ idle f.ready
    → All (IsSent f.max_msg) items
    → AreSeparators seps
    → (view (feed f (stream items ++ seps)).1 ≡ idle (f.ready ++ texts items))
      × ((feed f (stream items ++ seps)).0 ≡ pos (length (f.ready ++ texts items)))
feed-stream f items seps r e h hs =
    let go : read f.max_msg (view f) (stream items ++ seps) ≡ idle (f.ready ++ texts items) =
      ap (λ v. read f.max_msg v (stream items ++ seps)) e
      ∙ read-append f.max_msg (idle f.ready) (stream items) seps
      ∙ ap (λ v. read f.max_msg v seps) (read-stream f.max_msg items f.ready h)
      ∙ read-separators f.max_msg seps (f.ready ++ texts items) hs in
    let fed = view-feed f (stream items ++ seps) r in (fed.0 ∙ go, fed.1 ∙ ap result_of go)
