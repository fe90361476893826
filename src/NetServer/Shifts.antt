-- ===== src/NetServer/Shifts.antt =====
-- `queue_framed_requests` of ADNetServer: what it queues and what it counts for a connection.
use jsonrpc_tcp_srv.Prelude.{
  ℕ, ◌+◌, true, false, List, [], ◌∷◌, leb, ◌==◌, count, count-append, ℤ, pos, ◌≡◌, refl, ap, subst,
  ◌∙◌, arith, Bool-cases, Option-cases, inl, inr, ◌⊎◌, lookup, insert, lookup-insert,
  lookup-insert_other,
}
use Prim.Native.String.{String}
use jsonrpc_tcp_srv.Framer.{Bytes, Framer, next}
use jsonrpc_tcp_srv.Chain.{chain_add}
use jsonrpc_tcp_srv.NetServer.{
  NetServer, NetDataObj, ConnPending, queue_loop, claim, pending_of, new_conn_pending,
  max_pending_per_conn,
}
use jsonrpc_tcp_srv.NetServer.Queueing.{sent, request, put_request-sent}
use jsonrpc_tcp_srv.NetServer.Accounts.{is_of, counted, count_of}

-- From `m` to `m'`, what the connection `k` is counted for is what it queued; the others stay.
pub record Shifts (k : ℕ) (m m' : NetServer) : Type 0 where
  pub json : m'.json_socket ≡ m.json_socket
  pub responses : m'.response_chain ≡ m.response_chain
  pub clients : m'.client_info_chain ≡ m.client_info_chain
  pub live : m'.request_chain.init_flag ≡ m.request_chain.init_flag
  pub own :
      counted k m'.pending + count (is_of k) m.request_chain.items
      ≡ counted k m.pending + count (is_of k) m'.request_chain.items
  pub others :
      (c : ℕ)
      → ((c == k) ≡ true)
        ⊎ ((counted c m'.pending ≡ counted c m.pending)
            × (count (is_of c) m'.request_chain.items ≡ count (is_of c) m.request_chain.items))

Shifts-refl : (k : ℕ) (m : NetServer) → Shifts k m m
Shifts-refl k m = record {
  json = refl;
  responses = refl;
  clients = refl;
  live = refl;
  own = refl;
  others = λ c. inr (refl, refl);
}

Shifts-trans : (k : ℕ) (a b c : NetServer) → Shifts k a b → Shifts k b c → Shifts k a c
Shifts-trans k a b c f g = record {
  json = g.json ∙ f.json;
  responses = g.responses ∙ f.responses;
  clients = g.clients ∙ f.clients;
  live = g.live ∙ f.live;
  own = omega (arith, f.own, g.own);
  others = λ i. elim (f.others i) [
    | inl e ↦ inl e
    | inr x ↦ elim (g.others i) [ inl e ↦ inl e | inr y ↦ inr (y.0 ∙ x.0, y.1 ∙ x.1) ]
  ];
}

pub counted-pending_of : (m : NetServer) (k : ℕ) → (pending_of m k).count ≡ counted k m.pending
unfolding pending_of new_conn_pending
counted-pending_of m k = elim (Option-cases (lookup k m.pending)) [
  | inl e ↦ ground arith
  | inr (p, e) ↦ ground arith
]

counted-other :
    (c k : ℕ) (p : ConnPending) (m : NetServer)
    → (c == k) ≡ false
    → counted c (insert k p m.pending) ≡ counted c m.pending
counted-other c k p m h = ap count_of (lookup-insert_other c k p m.pending h)

counted-own : (k : ℕ) (p : ConnPending) (m : NetServer) → counted k (insert k p m.pending) ≡ p.count
counted-own k p m = ap count_of (lookup-insert k p m.pending)

-- The server whose connection is paused.
abbrev paused_one : NetServer → ℕ → NetServer
paused_one m k = record m {
  pending = insert k (record (pending_of m k) { paused = true }) m.pending;
}

abbrev counted_one : NetServer → ℕ → NetServer
counted_one m k = record m {
  pending = insert k (record (pending_of m k) { count = (pending_of m k).count + 1 }) m.pending;
}

paused-Shifts : (m : NetServer) (k : ℕ) → Shifts k m (paused_one m k)
paused-Shifts m k =
    let p : ConnPending = record (pending_of m k) { paused = true } in
    record {
      json = refl;
      responses = refl;
      clients = refl;
      live = refl;
      own = omega (arith, counted-own k p m, counted-pending_of m k);
      others = λ c. elim (Bool-cases (c == k)) [
        | inl e ↦ inl e
        | inr e ↦ inr (counted-other c k p m e, refl)
      ];
    }

is_of-own : (k : ℕ) (o : NetDataObj) → o.cltid ≡ pos k → is_of k o ≡ true
is_of-own k o e = ground arith

is_of-other : (c k : ℕ) (o : NetDataObj) → o.cltid ≡ pos k → (c == k) ≡ false → is_of c o ≡ false
is_of-other c k o e h = ground arith

-- A request that is counted and queued.
queued-Shifts :
    (m : NetServer) (fd : ℕ) (f : Framer) (ip : String) (port : ℤ) (k : ℕ) (msg : Bytes)
    → Shifts k m (sent (counted_one m k) fd f (ip, port, k) msg)
unfolding sent request chain_add
queued-Shifts m fd f ip port k msg =
    let p : ConnPending = record (pending_of m k) { count = (pending_of m k).count + 1 } in
    let o = request (counted_one m k) fd (ip, port, k) msg in
    record {
      json = refl;
      responses = refl;
      clients = refl;
      live = refl;
      own = ground (
        arith,
        counted-own k p m,
        counted-pending_of m k,
        count-append (is_of k) m.request_chain.items (o ∷ []),
        is_of-own k o refl,
      );
      others = λ c. elim (Bool-cases (c == k)) [
        | inl e ↦ inl e
        | inr e ↦ inr (
          counted-other c k p m e,
          ground (
            arith,
            count-append (is_of c) m.request_chain.items (o ∷ []),
            is_of-other c k o refl e,
          ),
        )
      ];
    }

pub queue_loop-Shifts :
    (msgs : List Bytes) (m : NetServer) (fd : ℕ) (f : Framer) (ip : String) (port : ℤ) (k : ℕ)
    → m.request_chain.init_flag ≡ true
    → Shifts k m (queue_loop msgs m fd f (ip, port, k)).2
unfolding queue_loop claim sent chain_add
queue_loop-Shifts [] m fd f ip port k l = Shifts-refl k m
queue_loop-Shifts (msg ∷ msgs) m fd f ip port k l =
    let f' = (next f).1 in
    elim (Bool-cases (leb max_pending_per_conn (pending_of m k).count)) [
      | inl e ↦
          let is : paused_one m k ≡ (queue_loop (msg ∷ msgs) m fd f (ip, port, k)).2 =
            ground arith in
          subst (Shifts k m) is (paused-Shifts m k)
      | inr e ↦
          let m2 = sent (counted_one m k) fd f' (ip, port, k) msg in
          let put_is = put_request-sent (counted_one m k) fd f' (ip, port, k) msg l in
          let is : (queue_loop msgs m2 fd f' (ip, port, k)).2
              ≡ (queue_loop (msg ∷ msgs) m fd f (ip, port, k)).2 =
            ground (arith, put_is) in
          subst (Shifts k m) is (
            Shifts-trans k m m2 (queue_loop msgs m2 fd f' (ip, port, k)).2
              (queued-Shifts m fd f' ip port k msg) (queue_loop-Shifts msgs m2 fd f' ip port k l))
    ]
