-- ===== src/NetServer/Responding.antt =====
-- The response thread of ADNetServer keeps the bound on unanswered requests.
use jsonrpc_tcp_srv.Prelude.{
  ℕ, zero, suc, Option, none, some, true, false, ℤ, pos, negsuc, ◌≡◌, refl, subst, ◌∙◌, arith,
  Bool-cases, Option-cases, inl, inr, lookup, insert,
}
use jsonrpc_tcp_srv.Framer.{Bytes}
use jsonrpc_tcp_srv.Chain.{chain_get}
use jsonrpc_tcp_srv.NetServer.{
  NetServer, NetDataObj, ConnPending, pending_of, response_done, emit, send_bytes,
}
use jsonrpc_tcp_srv.NetServer.Sending.{
  SendEnv, SendCode, sent_all, error, timed_out, respond, respond_to, or_same, send_response,
  send_with_deadline, waited_ms_of, drop_connection, over_send_wait_budget, over_budget_of,
  waited_entry, dup_if_same_client,
}
use jsonrpc_tcp_srv.NetServer.Pending.{
  IsBounded, IsBoundedConn, insert-IsBounded, lookup-IsBoundedConn, pending_of-IsBoundedConn,
  response_done-IsBounded,
}
use jsonrpc_tcp_srv.NetServer.Reading.{IsBoundedServer}

waited_entry-IsBoundedConn :
    (p : ConnPending) (waited now : ℕ) → IsBoundedConn p → IsBoundedConn (waited_entry p waited now)
unfolding waited_entry
waited_entry-IsBoundedConn p waited now (le, b) =
    let same_count : (waited_entry p waited now).count ≡ p.count = ground arith in
    let same_paused : (waited_entry p waited now).paused ≡ p.paused = ground arith in
    (
      omega (arith, same_count, le),
      elim b [ inl a ↦ inl (same_paused ∙ a) | inr a ↦ inr (omega (arith, same_count, a)) ],
    )

over_budget_of-IsBounded :
    (m : NetServer) (c waited now : ℕ)
    → IsBoundedServer m
    → IsBoundedServer (over_budget_of m c waited now (lookup c m.pending)).1
unfolding over_budget_of waited_entry
over_budget_of-IsBounded m c waited now h = elim (Option-cases (lookup c m.pending)) [
  | inl e ↦
      let is : m ≡ (over_budget_of m c waited now (lookup c m.pending)).1 = ground arith in
      subst IsBoundedServer is h
  | inr (p, e) ↦
      let is : insert c (waited_entry p waited now) m.pending
          ≡ (over_budget_of m c waited now (lookup c m.pending)).1.pending =
        ground arith in
      subst IsBounded is (
        insert-IsBounded c (waited_entry p waited now) m.pending
          (waited_entry-IsBoundedConn p waited now (lookup-IsBoundedConn c m.pending p e h)) h)
]

over_send_wait_budget-IsBounded :
    (m : NetServer) (c : ℤ) (waited now : ℕ)
    → IsBoundedServer m
    → IsBoundedServer (over_send_wait_budget m c waited now).1
unfolding over_send_wait_budget
over_send_wait_budget-IsBounded m (negsuc _) waited now h = h
over_send_wait_budget-IsBounded m (pos c) zero now h = h
over_send_wait_budget-IsBounded m (pos c) (suc w) now h = over_budget_of-IsBounded m c (suc w) now h

drop_connection-IsBounded :
    (m : NetServer) (fd : ℕ) (c : ℤ) → IsBoundedServer m → IsBoundedServer (drop_connection m fd c)
unfolding drop_connection
drop_connection-IsBounded m fd (negsuc _) h = h
drop_connection-IsBounded m fd (pos c) h =
    let p = pending_of m c in
    let q : ConnPending = record p { dead = true; paused = false } in
    let is : insert c q m.pending ≡ (drop_connection m fd (pos c)).pending =
      elim (Bool-cases p.paused) [ inl d ↦ ground arith | inr d ↦ ground arith ] in
    subst IsBounded is
      (insert-IsBounded c q m.pending ((pending_of-IsBoundedConn m c h).0, inl refl) h)

send_response-IsBounded :
    (m : NetServer) (fd : ℕ) (obj : NetDataObj) (code : SendCode) (out : Bytes) (waited now : ℕ)
    → IsBoundedServer m
    → IsBoundedServer (send_response m fd obj (code, out) waited now)
unfolding send_response
send_response-IsBounded m fd obj sent_all out waited now h =
    let m0 = emit (send_bytes fd out) m in
    let r = over_send_wait_budget m0 obj.cltid waited now in
    let counted = over_send_wait_budget-IsBounded m0 obj.cltid waited now h in
    elim (Bool-cases r.0) [
      | inl e ↦
          let is : (drop_connection r.1 fd obj.cltid).pending
              ≡ (send_response m fd obj (sent_all, out) waited now).pending =
            ground arith in
          subst IsBounded is (drop_connection-IsBounded r.1 fd obj.cltid counted)
      | inr e ↦
          let is : r.1.pending ≡ (send_response m fd obj (sent_all, out) waited now).pending =
            ground arith in
          subst IsBounded is counted
    ]
send_response-IsBounded m fd obj error out waited now h =
    drop_connection-IsBounded (emit (send_bytes fd out) m) fd obj.cltid h
send_response-IsBounded m fd obj timed_out out waited now h =
    drop_connection-IsBounded (emit (send_bytes fd out) m) fd obj.cltid h

abbrev pub IsBoundedAfter : Option NetServer → Type 0
IsBoundedAfter none = Unit {0}
IsBoundedAfter (some m) = IsBoundedServer m

respond_to-IsBounded :
    (m : NetServer) (obj : NetDataObj) (env : SendEnv)
    → IsBoundedServer m
    → IsBoundedAfter (respond_to m obj env)
unfolding respond_to
respond_to-IsBounded m obj env h =
    elim (Option-cases (dup_if_same_client m obj.sock_descriptor obj.cltid env.alive env.dup_fd)) [
      | inl e ↦
          let is : some (response_done m obj.cltid) ≡ respond_to m obj env = ground arith in
          subst IsBoundedAfter is (response_done-IsBounded m obj.cltid h)
      | inr (fd, e) ↦
          elim (Option-cases (send_with_deadline env.start obj.data_buffer env.sends).1) [
            | inl f ↦
                let is : none ≡ respond_to m obj env = ground arith in subst IsBoundedAfter is tt
            | inr ((code, out), f) ↦
                let waited = waited_ms_of env.start env.finish code in
                let sent = send_response m fd obj (code, out) waited env.now in
                let is : some (response_done sent obj.cltid) ≡ respond_to m obj env =
                  ground arith in
                subst IsBoundedAfter is (
                  response_done-IsBounded sent obj.cltid
                    (send_response-IsBounded m fd obj code out waited env.now h))
          ]
    ]

pub respond-IsBounded :
    (m : NetServer) (env : SendEnv) → IsBoundedServer m → IsBoundedServer (respond m env)
unfolding respond
respond-IsBounded m env h =
    let (obj, c) = chain_get m.response_chain in
    let m' = record m { response_chain = c } in
    elim (Option-cases obj) [
      | inl e ↦
          let is : m'.pending ≡ (respond m env).pending = ground (arith, e) in subst IsBounded is h
      | inr (o, e) ↦
          let after = respond_to-IsBounded m' o env h in
          let is : or_same m (respond_to m' o env) ≡ respond m env = ground (arith, e) in
          subst IsBoundedServer is (elim (Option-cases (respond_to m' o env)) [
            | inl n ↦ rw n h
            | inr (r, n) ↦ rw n (subst IsBoundedAfter n after)
          ])
    ]
