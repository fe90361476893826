-- ===== src/Framer/Tests.antt =====
-- The framer's properties at concrete streams.
use jsonrpc_tcp_srv.Prelude.{
  ◌≤◌, List, [], ◌∷◌, ◌++◌, length, All, pos, minus_one, ◌≡◌, refl, arith,
}
use jsonrpc_tcp_srv.Framer.Spec.{view, read, fail}
use jsonrpc_tcp_srv.Framer.Text.{
  plain_byte, escaped, Value, atom, str, spaced, arr, obj, nil, value, end, member, letters, print,
  IsText, AreTexts, AreMembers, IsLetter, is_blank, is_message, is_plain,
}
use jsonrpc_tcp_srv.Framer.Passes.{idle}
use jsonrpc_tcp_srv.Framer.Refine.{view-feed, feed-append, result_of, new_framer-IsResting}
use jsonrpc_tcp_srv.Framer.Bounds.{IsBounded, feed-IsBounded}
use jsonrpc_tcp_srv.Framer.RoundTrip.{stream, IsSent, texts, feed-stream}
use jsonrpc_tcp_srv.Framer.Errors.{feed_garbage}
use jsonrpc_tcp_srv.Framer.{Bytes, new_framer, feed, pending_bytes, is_open, is_separator}

abbrev opening : Bytes
opening = b'{' ∷ b'"' ∷ b'}' ∷ []

abbrev closing : Bytes
closing = b'"' ∷ b'}' ∷ b' ' ∷ []

view-feed_example :
    (view (feed (new_framer 100) opening).1 ≡ read 100 (view (new_framer 100)) opening)
    × ((feed (new_framer 100) opening).0 ≡ result_of (read 100 (view (new_framer 100)) opening))
unfolding new_framer
view-feed_example = view-feed (new_framer 100) opening (new_framer-IsResting 100)

feed-append_example :
    (view (feed (feed (new_framer 100) opening).1 closing).1
      ≡ view (feed (new_framer 100) (opening ++ closing)).1)
    × ((feed (feed (new_framer 100) opening).1 closing).0
        ≡ (feed (new_framer 100) (opening ++ closing)).0)
feed-append_example = feed-append (new_framer 100) opening closing (new_framer-IsResting 100)

feed-IsBounded_example :
    IsBounded 100 (view (feed (new_framer 100) opening).1)
    × (pending_bytes (feed (new_framer 100) opening).1 ≤ 100)
unfolding new_framer
feed-IsBounded_example =
    feed-IsBounded (new_framer 100) opening (new_framer-IsResting 100) (omega arith)
      (record { messages = tt; rest = omega arith; depth = omega arith })

-- `{"a": [1]}` after a blank, and `["\n" ]` after a line end.
abbrev two_items : List (Bytes × Value)
two_items =
    (
      b' ' ∷ [],
      obj (
          member [] (plain_byte b'a' ∷ []) []
            (spaced (b' ' ∷ []) (arr (value (atom (b'1' ∷ [])) (nil []))) []) (end [])),
    )
    ∷ (b'\n' ∷ [], arr (value (str (escaped b'n' ∷ [])) (nil (b' ' ∷ []))))
    ∷ []

-- Its texts can be sent.
two_items-IsSent : All (IsSent 100) two_items
unfolding IsText AreTexts AreMembers IsLetter is_blank is_message is_plain is_separator print
    letters
two_items-IsSent = (
  ((refl, tt), (tt, (refl, tt), tt, (((refl, tt), (((refl, tt), tt)), tt)), tt), refl, omega arith),
  (((refl, tt), ((tt, tt), (refl, tt)), refl, omega arith), tt),
)

feed-stream_example :
    (view (feed (new_framer 100) (stream two_items ++ b'\n' ∷ [])).1 ≡ idle ([] ++ texts two_items))
    × ((feed (new_framer 100) (stream two_items ++ b'\n' ∷ [])).0
        ≡ pos (length ([] ++ texts two_items)))
unfolding new_framer is_separator
feed-stream_example =
    feed-stream (new_framer 100) two_items (b'\n' ∷ []) (new_framer-IsResting 100) refl
      two_items-IsSent (refl, tt)

feed_garbage_example :
    let r = feed (new_framer 100) (stream two_items ++ (b' ' ∷ [] ++ b'x' ∷ opening)) in
    (r.0 ≡ minus_one)
    × (view r.1 ≡ fail (idle ([] ++ texts two_items)))
    × (feed r.1 closing ≡ (minus_one, r.1))
unfolding new_framer is_separator is_open
feed_garbage_example =
    feed_garbage (new_framer 100) two_items (b' ' ∷ []) b'x' opening closing
      (new_framer-IsResting 100) refl two_items-IsSent (refl, tt) refl refl
