-- ===== src/Framer/Bounds.antt =====
-- How much ADJsonStreamFramer keeps: sizes of messages, of the unfinished rest, and `depth`.
use jsonrpc_tcp_srv.Prelude.{
  ℕ, ◌≤◌, List, [], ◌∷◌, ◌++◌, length, length-append, All, All-append, arith,
}
use jsonrpc_tcp_srv.Framer.Spec.{View, view, read, read_byte}
use jsonrpc_tcp_srv.Framer.Refine.{IsResting, view-feed}
use jsonrpc_tcp_srv.Framer.{Bytes, Framer, pending_bytes, feed}

abbrev pub Fits : ℕ → List Bytes → Type 0
Fits m = All (λ msg. length msg ≤ m)

pub record IsBounded (m : ℕ) (v : View) : Type 0 where
  pub messages : Fits m v.ready
  pub rest : length v.partial ≤ m
  pub depth : v.depth ≤ length v.partial

Fits-concat :
    (m : ℕ) (ready : List Bytes) (msg : Bytes)
    → Fits m ready
    → length msg ≤ m
    → Fits m (ready ++ msg ∷ [])
Fits-concat m ready msg h k = All-append _ ready (msg ∷ []) h (k, tt)

read_byte-IsBounded :
    (m : ℕ) (v : View) (c : ℕ) → 1 ≤ m → IsBounded m v → IsBounded m (read_byte m v c)
unfolding read_byte
read_byte-IsBounded m v c h b = record {
  messages = ground (
    arith,
    b.messages,
    length-append v.partial (c ∷ []),
    Fits-concat m v.ready (v.partial ++ c ∷ []) b.messages,
  );
  rest = ground (arith, b.rest, length-append v.partial (c ∷ []));
  depth = ground (arith, b.depth, length-append v.partial (c ∷ []));
}

read-IsBounded : (m : ℕ) (v : View) (cs : Bytes) → 1 ≤ m → IsBounded m v → IsBounded m (read m v cs)
unfolding read
read-IsBounded m v [] h b = b
read-IsBounded m v (c ∷ cs) h b =
    read-IsBounded m (read_byte m v c) cs h (read_byte-IsBounded m v c h b)

-- Whatever arrives, while `max_msg` is at least 1, no message and no unfinished rest is longer than
-- `max_msg`, and `depth` does not exceed the bytes of the rest (so it cannot overflow an int).
pub feed-IsBounded :
    (f : Framer) (bytes : Bytes)
    → IsResting f
    → 1 ≤ f.max_msg
    → IsBounded f.max_msg (view f)
    → IsBounded f.max_msg (view (feed f bytes).1) × (pending_bytes (feed f bytes).1 ≤ f.max_msg)
unfolding pending_bytes
feed-IsBounded f bytes r h b =
    let k : IsBounded f.max_msg (view (feed f bytes).1) =
      rw ((view-feed f bytes r).0) (read-IsBounded f.max_msg (view f) bytes h b) in
    (k, k.rest)
