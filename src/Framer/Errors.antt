-- ===== src/Framer/Errors.antt =====
-- What ADJsonStreamFramer does with bytes that belong to no message, and after that.
use jsonrpc_tcp_srv.Prelude.{ℕ, false, List, ◌∷◌, ◌++◌, All, minus_one, ◌≡◌, ap, ◌∙◌, arith, refl}
use jsonrpc_tcp_srv.Framer.Spec.{view, read, read_byte, fail, read-append, read-error}
use jsonrpc_tcp_srv.Framer.Text.{Value, AreSeparators}
use jsonrpc_tcp_srv.Framer.Passes.{idle}
use jsonrpc_tcp_srv.Framer.Refine.{IsResting, view-feed, result_of, feed_failed, feed-IsResting}
use jsonrpc_tcp_srv.Framer.RoundTrip.{stream, IsSent, texts, read-stream, read-separators}
use jsonrpc_tcp_srv.Framer.{Bytes, Framer, is_open, is_separator, feed}

read-garbage :
    (m c : ℕ) (ready : List Bytes) (rest : Bytes)
    → is_separator c ≡ false
    → is_open c ≡ false
    → read m (idle ready) (c ∷ rest) ≡ fail (idle ready)
unfolding read
read-garbage m c ready rest hs ho =
    ap (λ v. read m v rest) (first m c ready hs ho) ∙ read-error m (fail (idle ready)) rest refl
  where
    first :
        (k b : ℕ) (r : List Bytes)
        → is_separator b ≡ false
        → is_open b ≡ false
        → read_byte k (idle r) b ≡ fail (idle r)
    first k b r es eo = unfold read_byte in ground arith

-- A byte outside a message that is no separator and opens nothing ends the stream: `feed` returns
-- -1, the texts before the byte stay queued, what follows it is dropped, and every later call
-- returns -1 and changes nothing.
pub feed_garbage :
    (f : Framer) (items : List (Bytes × Value)) (seps : Bytes) (c : ℕ) (rest later : Bytes)
    → IsResting f
    → view f ≡ idle f.ready
    → All (IsSent f.max_msg) items
    → AreSeparators seps
    → is_separator c ≡ false
    → is_open c ≡ false
    → let r = feed f (stream items ++ (seps ++ c ∷ rest)) in
      (r.0 ≡ minus_one)
      × (view r.1 ≡ fail (idle (f.ready ++ texts items)))
      × (feed r.1 later ≡ (minus_one, r.1))
feed_garbage f items seps c rest later r e h hs ns ne =
    let all : Bytes = stream items ++ (seps ++ c ∷ rest) in
    let go : read f.max_msg (view f) all ≡ fail (idle (f.ready ++ texts items)) =
      ap (λ v. read f.max_msg v all) e
      ∙ read-append f.max_msg (idle f.ready) (stream items) (seps ++ c ∷ rest)
      ∙ ap (λ v. read f.max_msg v (seps ++ c ∷ rest)) (read-stream f.max_msg items f.ready h)
      ∙ read-append f.max_msg (idle (f.ready ++ texts items)) seps (c ∷ rest)
      ∙ ap (λ v. read f.max_msg v (c ∷ rest))
          (read-separators f.max_msg seps (f.ready ++ texts items) hs)
      ∙ read-garbage f.max_msg c (f.ready ++ texts items) rest ns ne in
    let fed = view-feed f all r in
    let seen = fed.0 ∙ go in
    (
      fed.1 ∙ ap result_of go,
      seen,
      feed_failed (feed f all).1 later (feed-IsResting f all r) (ap (λ v. v.error) seen),
    )
