-- ===== src/NetServer/Queueing.antt =====
-- `queue_framed_requests` of ADNetServer: the back-pressure on a connection.
use jsonrpc_tcp_srv.Prelude.{
  ◌⊎◌, inl, inr, Bool-cases, ℕ, zero, suc, ◌+◌, ◌<◌, Bool, true, false, ◌||◌, List, [], ◌∷◌, ◌++◌,
  Option, none, some, ltb, ◌==◌, length, take, drop, map, ℤ, pos, ◌≡◌, refl, ap, sym, subst, ◌∙◌,
  arith, append-nil, append_assoc, lookup, insert, lookup-insert, lookup-insert_other,
}
use Prim.Native.String.{String}
use jsonrpc_tcp_srv.Framer.{Bytes, Framer, next, next_of}
use jsonrpc_tcp_srv.Chain.{chain_put, chain_add, chain_generate_ident}
use jsonrpc_tcp_srv.NetServer.{
  NetServer, NetDataObj, ConnPending, queue_loop, claim, put_request, pending_of, new_conn_pending,
  max_pending_per_conn,
}

-- What the consumer and the responses look at in a request.
abbrev pub request_of : NetDataObj → ℕ × ℤ × Bytes
request_of obj = (obj.sock_descriptor, obj.cltid, obj.data_buffer)

abbrev pub requests_of : List NetDataObj → List (ℕ × ℤ × Bytes)
requests_of [] = []
requests_of (o ∷ os) = request_of o ∷ requests_of os

pub requests_of-append :
    (xs ys : List NetDataObj) → requests_of (xs ++ ys) ≡ requests_of xs ++ requests_of ys
requests_of-append [] ys = refl
requests_of-append (x ∷ xs) ys = ap (◌∷◌ (request_of x)) (requests_of-append xs ys)

abbrev pub from : ℕ → ℕ → Bytes → ℕ × ℤ × Bytes
from fd cltid msg = (fd, pos cltid, msg)

-- The messages that wait in a connection's framer.
abbrev pub ready_of : Option Framer → List Bytes
ready_of none = []
ready_of (some f) = f.ready

pub pending_of-insert :
    (m : NetServer) (c : ℕ) (p : ConnPending)
    → pending_of (record m { pending = insert c p m.pending }) c ≡ p
unfolding pending_of
pending_of-insert m c p = ground (arith, lookup-insert c p m.pending)

pub pending_of-same :
    (m m' : NetServer) (c : ℕ) → m.pending ≡ m'.pending → pending_of m c ≡ pending_of m' c
unfolding pending_of
pending_of-same m m' c e = ap (λ p. elim (lookup c p) [ none ↦ new_conn_pending | some q ↦ q ]) e

-- With room for `n` more requests: the first `n` messages are queued, and the connection is paused
-- if there are more.
pub record IsQueued (m : NetServer) (fd c n : ℕ) (msgs : List Bytes) (r : ℕ × Bool × NetServer)
    : Type 0 where
  pub queued : r.0 ≡ length (take n msgs)
  pub paused : r.1 ≡ ltb n (length msgs)
  pub requests :
      requests_of r.2.request_chain.items
      ≡ requests_of m.request_chain.items ++ map (from fd c) (take n msgs)
  pub left : ready_of (lookup fd r.2.framers) ≡ drop n msgs
  pub count : (pending_of r.2 c).count ≡ (pending_of m c).count + length (take n msgs)
  pub flag : (pending_of r.2 c).paused ≡ (ltb n (length msgs) || (pending_of m c).paused)
  pub others : (i : ℕ) → ((i == c) ≡ true) ⊎ (lookup i r.2.pending ≡ lookup i m.pending)
  pub live : r.2.request_chain.init_flag ≡ true

insert_other :
    (m : NetServer) (c : ℕ) (p : ConnPending) (i : ℕ)
    → ((i == c) ≡ true) ⊎ (lookup i (insert c p m.pending) ≡ lookup i m.pending)
insert_other m c p i = elim (Bool-cases (i == c)) [
  | inl e ↦ inl e
  | inr e ↦ inr (lookup-insert_other i c p m.pending e)
]

-- The server after a claim that found no room, and after one that did.
full : NetServer → ℕ → NetServer
full m c = record m { pending = insert c (record (pending_of m c) { paused = true }) m.pending }

claimed : NetServer → ℕ → NetServer
claimed m c = record m {
  pending = insert c (record (pending_of m c) { count = (pending_of m c).count + 1 }) m.pending;
}

claim-full : (m : NetServer) (c : ℕ) → (pending_of m c).count ≡ 256 → claim m c ≡ (false, full m c)
unfolding claim full
claim-full m c h = ground arith

claim-claimed :
    (m : NetServer) (c : ℕ) → (pending_of m c).count < 256 → claim m c ≡ (true, claimed m c)
unfolding claim claimed
claim-claimed m c h = ground arith

unfoldable pub request : NetServer → ℕ → String × ℤ × ℕ → Bytes → NetDataObj
request m fd (ip, port, c) msg = record {
  ident = m.request_chain.ident_generator + 1;
  sock_descriptor = fd;
  port = port;
  ip = ip;
  cltid = pos c;
  data_buffer = msg;
}

-- The server after one request went to the chain.
unfoldable pub sent : NetServer → ℕ → Framer → String × ℤ × ℕ → Bytes → NetServer
sent m fd f info msg = record m {
  request_chain =
      chain_add (record m.request_chain { ident_generator = m.request_chain.ident_generator + 1 })
        (request m fd info msg);
  framers = insert fd f m.framers;
}

pub put_request-sent :
    (m : NetServer) (fd : ℕ) (f : Framer) (info : String × ℤ × ℕ) (msg : Bytes)
    → m.request_chain.init_flag ≡ true
    → put_request m fd f info msg ≡ (true, sent m fd f info msg)
unfolding put_request sent request chain_put chain_generate_ident
put_request-sent m fd f (ip, port, c) msg l = ground arith

next-ready :
    (f : Framer) (msg : Bytes) (msgs : List Bytes) → f.ready ≡ msg ∷ msgs → (next f).1.ready ≡ msgs
unfolding next next_of
next-ready f msg msgs e = ground arith

pub queue_loop-IsQueued :
    (msgs : List Bytes) (n : ℕ) (m : NetServer) (fd : ℕ) (f : Framer) (ip : String) (port : ℤ)
    (c : ℕ)
    → (pending_of m c).count + n ≡ max_pending_per_conn
    → m.request_chain.init_flag ≡ true
    → f.ready ≡ msgs
    → ready_of (lookup fd m.framers) ≡ msgs
    → IsQueued m fd c n msgs (queue_loop msgs m fd f (ip, port, c))
unfolding queue_loop full claimed sent request chain_add
queue_loop-IsQueued [] zero m fd f ip port c h l e g = record {
  queued = refl;
  paused = refl;
  requests = sym (append-nil _);
  left = g;
  count = omega arith;
  flag = refl;
  others = λ i. inr refl;
  live = l;
}
queue_loop-IsQueued [] (suc n) m fd f ip port c h l e g = record {
  queued = refl;
  paused = ground arith;
  requests = sym (append-nil _);
  left = g;
  count = omega arith;
  flag = ground arith;
  others = λ i. inr refl;
  live = l;
}
queue_loop-IsQueued (msg ∷ msgs) zero m fd f ip port c h l e g =
    let claim_is = claim-full m c (omega (arith, h)) in
    let is : (0, true, full m c) ≡ queue_loop (msg ∷ msgs) m fd f (ip, port, c) =
      ground (arith, claim_is) in
    let entry = pending_of-insert m c (record (pending_of m c) { paused = true }) in
    let done : IsQueued m fd c 0 (msg ∷ msgs) (0, true, full m c) = record {
      queued = refl;
      paused = ground arith;
      requests = sym (append-nil _);
      left = g;
      count = ap (λ p. p.count) entry ∙ omega arith;
      flag = ap (λ p. p.paused) entry ∙ ground arith;
      others = insert_other m c (record (pending_of m c) { paused = true });
      live = l;
    } in
    subst (IsQueued m fd c 0 (msg ∷ msgs)) is done
queue_loop-IsQueued (msg ∷ msgs) (suc n) m fd f ip port c h l e g =
    let m1 = claimed m c in
    let f' = (next f).1 in
    let m2 = sent m1 fd f' (ip, port, c) msg in
    let claim_is = claim-claimed m c (omega (arith, h)) in
    let put_is = put_request-sent m1 fd f' (ip, port, c) msg l in
    let entry =
      pending_of-insert m c (record (pending_of m c) { count = (pending_of m c).count + 1 }) in
    let entry2 : pending_of m2 c ≡ pending_of (claimed m c) c = pending_of-same m2 m1 c refl in
    let framer = lookup-insert fd f' m1.framers in
    let rest =
      queue_loop-IsQueued msgs n m2 fd f' ip port c
        (omega (arith, h, ap (λ p. p.count) (entry2 ∙ entry))) l (next-ready f msg msgs e)
        (ap ready_of framer ∙ next-ready f msg msgs e) in
    let r = queue_loop msgs m2 fd f' (ip, port, c) in
    let is : (r.0 + 1, r.1, r.2) ≡ queue_loop (msg ∷ msgs) m fd f (ip, port, c) =
      ground (arith, claim_is, put_is) in
    let done : IsQueued m fd c (suc n) (msg ∷ msgs) (r.0 + 1, r.1, r.2) = record {
      queued = omega (arith, rest.queued);
      paused = rest.paused ∙ ground arith;
      requests =
          rest.requests
          ∙ ap (λ l. l ++ map (from fd c) (take n msgs))
              (requests_of-append m.request_chain.items (request m1 fd (ip, port, c) msg ∷ []))
          ∙ append_assoc (requests_of m.request_chain.items) (from fd c msg ∷ [])
              (map (from fd c) (take n msgs));
      left = rest.left;
      count = omega (arith, rest.count, ap (λ p. p.count) (entry2 ∙ entry));
      flag =
          rest.flag
          ∙ ap (λ b. ltb n (length msgs) || b) (ap (λ p. p.paused) (entry2 ∙ entry))
          ∙ ap (λ b. b || (pending_of m c).paused) (ground arith);
      others = λ i. elim (rest.others i) [
        | inl a ↦ inl a
        | inr a ↦
            elim (insert_other m c (record (pending_of m c) { count = (pending_of m c).count + 1 })
              i) [ inl b ↦ inl b | inr b ↦ inr (a ∙ b) ]
      ];
      live = rest.live;
    } in
    subst (IsQueued m fd c (suc n) (msg ∷ msgs)) is done
