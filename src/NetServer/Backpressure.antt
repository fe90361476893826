-- ===== src/NetServer/Backpressure.antt =====
-- `queue_framed_requests` of ADNetServer as a whole: registered and unknown connections.
use jsonrpc_tcp_srv.Prelude.{
  ℕ, ◌+◌, Bool, true, false, List, [], some, ltb, length, take, ℤ, pos, ◌≡◌, refl, ap, subst, ◌∙◌,
  arith, Bool-cases, List-cases, inl, inr, ◌≢◌, lookup,
}
use Prim.Native.String.{String}
use jsonrpc_tcp_srv.Framer.{Bytes, Framer}
use jsonrpc_tcp_srv.NetServer.{
  NetServer, emit, data_arrival, notify_queued, queue_known, queue_framer, queue_framed_requests,
  get_client_info, connection_dead, queue_loop, pending_of, max_pending_per_conn,
}
use jsonrpc_tcp_srv.NetServer.Queueing.{ready_of, pending_of-same, IsQueued, queue_loop-IsQueued}

-- The notification changes nothing that `IsQueued` speaks of.
notify_queued-IsQueued :
    (m : NetServer) (fd c n : ℕ) (msgs : List Bytes) (q : ℕ) (b : Bool) (m' : NetServer)
    → IsQueued m fd c n msgs (q, b, m')
    → IsQueued m fd c n msgs (q, (notify_queued (q, b, m')).0, (notify_queued (q, b, m')).1)
unfolding notify_queued
notify_queued-IsQueued m fd c n msgs q b m' h = elim (Bool-cases (ltb 0 q)) [
  | inl e ↦
      let is : (q, b, emit data_arrival m')
          ≡ (q, (notify_queued (q, b, m')).0, (notify_queued (q, b, m')).1) =
        ground arith in
      let told : IsQueued m fd c n msgs (q, b, emit data_arrival m') = record {
        queued = h.queued;
        paused = h.paused;
        requests = h.requests;
        left = h.left;
        count = ap (λ p. p.count) (pending_of-same (emit data_arrival m') m' c refl) ∙ h.count;
        flag = ap (λ p. p.paused) (pending_of-same (emit data_arrival m') m' c refl) ∙ h.flag;
        others = h.others;
        live = h.live;
      } in
      subst (IsQueued m fd c n msgs) is told
  | inr e ↦
      let is : (q, b, m') ≡ (q, (notify_queued (q, b, m')).0, (notify_queued (q, b, m')).1) =
        ground arith in
      subst (IsQueued m fd c n msgs) is h
]

-- For a connection that is registered and not dropped, with `n` requests below its bound, and with
-- messages in its framer, `queue_framed_requests` sends the first `n` messages to the end of the
-- request chain in their order, with the connection's descriptor and id, counts them as pending and
-- leaves the rest in the framer; it asks for a pause exactly when messages are left. No other
-- connection's count changes.
pub queue_framed_requests-IsQueued :
    (m : NetServer) (fd : ℕ) (f : Framer) (ip : String) (port : ℤ) (c n : ℕ)
    → lookup fd m.framers ≡ some f
    → f.ready ≢ []
    → get_client_info m fd ≡ some (ip, port, c)
    → connection_dead m (pos c) ≡ false
    → m.request_chain.init_flag ≡ true
    → (pending_of m c).count + n ≡ max_pending_per_conn
    → let (paused, m') = queue_framed_requests m fd in
      IsQueued m fd c n f.ready (length (take n f.ready), paused, m')
unfolding queue_framed_requests queue_framer queue_known
queue_framed_requests-IsQueued m fd f ip port c n g some_left info alive l h =
    elim (List-cases f.ready) [
      | inl e ↦ absurd (some_left e)
      | inr (msg, msgs, e) ↦
          let q = queue_loop f.ready m fd f (ip, port, c) in
          let done = queue_loop-IsQueued f.ready n m fd f ip port c h l refl (ap ready_of g) in
          let is : notify_queued q ≡ queue_framed_requests m fd =
            ground (arith, ap length e, alive) in
          subst (λ r. IsQueued m fd c n f.ready (length (take n f.ready), r.0, r.1)) is
            (subst (λ k. IsQueued m fd c n f.ready (k, (notify_queued q).0, (notify_queued q).1))
              done.queued (notify_queued-IsQueued m fd c n f.ready q.0 q.1 q.2 done))
    ]
