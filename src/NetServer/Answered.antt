-- ===== src/NetServer/Answered.antt =====
-- The sending of one response of ADNetServer: its connection is counted for one request less.
use jsonrpc_tcp_srv.Prelude.{
  ℕ, zero, suc, ◌-◌, true, false, Option, none, some, ◌==◌, ==_iff, ℤ, pos, negsuc, ◌≡◌, refl, ap,
  sym, subst, ◌∙◌, arith, ◌==ℤ◌, Bool-cases, Option-cases, inl, inr, lookup, insert, lookup-insert,
  lookup-insert_other, if◌then◌else◌,
}
use jsonrpc_tcp_srv.Framer.{Bytes}
use jsonrpc_tcp_srv.NetServer.{
  NetServer, NetDataObj, ConnPending, emit, send_bytes, close_fd, shutdown_fd, wake_listener,
  Output, pending_of, response_done, response_done_of, done_entry,
}
use jsonrpc_tcp_srv.NetServer.Sending.{
  SendEnv, SendCode, sent_all, error, timed_out, respond_to, send_response, send_with_deadline,
  waited_ms_of, drop_connection, over_send_wait_budget, over_budget_of, waited_entry,
  dup_if_same_client,
}
use jsonrpc_tcp_srv.NetServer.Accounts.{is_of, counted, count_of}
use jsonrpc_tcp_srv.NetServer.Shifts.{counted-pending_of}

-- The counts and all that the accounts look at but `pending` are the same.
pub record Agrees (m m' : NetServer) : Type 0 where
  json : m'.json_socket ≡ m.json_socket
  requests : m'.request_chain ≡ m.request_chain
  responses : m'.response_chain ≡ m.response_chain
  clients : m'.client_info_chain ≡ m.client_info_chain
  counts : (c : ℕ) → counted c m'.pending ≡ counted c m.pending

Agrees-refl : (m : NetServer) → Agrees m m
Agrees-refl m = record {
  json = refl;
  requests = refl;
  responses = refl;
  clients = refl;
  counts = λ c. refl;
}

Agrees-trans : (a b c : NetServer) → Agrees a b → Agrees b c → Agrees a c
Agrees-trans a b c f g = record {
  json = g.json ∙ f.json;
  requests = g.requests ∙ f.requests;
  responses = g.responses ∙ f.responses;
  clients = g.clients ∙ f.clients;
  counts = λ i. g.counts i ∙ f.counts i;
}

counted-insert :
    (m : NetServer) (k : ℕ) (p : ConnPending)
    → p.count ≡ counted k m.pending
    → (c : ℕ) → counted c (insert k p m.pending) ≡ counted c m.pending
counted-insert m k p e c = elim (Bool-cases (c == k)) [
  | inl t ↦
      let is : k ≡ c = sym ((==_iff c k).0 t) in
      subst (λ i. counted i (insert k p m.pending) ≡ counted i m.pending) is
        (ap count_of (lookup-insert k p m.pending) ∙ e)
  | inr t ↦ ap count_of (lookup-insert_other c k p m.pending t)
]

Agrees-insert :
    (m : NetServer) (k : ℕ) (p : ConnPending)
    → p.count ≡ counted k m.pending
    → Agrees m (record m { pending = insert k p m.pending })
Agrees-insert m k p e = record {
  json = refl;
  requests = refl;
  responses = refl;
  clients = refl;
  counts = counted-insert m k p e;
}

-- The trace does not matter.
Agrees-emit : (x : Output) (m m' : NetServer) → Agrees m m' → Agrees m (emit x m')
Agrees-emit x m m' f = record {
  json = f.json;
  requests = f.requests;
  responses = f.responses;
  clients = f.clients;
  counts = f.counts;
}

emit-Agrees : (x : Output) (m m' : NetServer) → Agrees (emit x m) m' → Agrees m m'
emit-Agrees x m m' f = record {
  json = f.json;
  requests = f.requests;
  responses = f.responses;
  clients = f.clients;
  counts = f.counts;
}

drop_connection-Agrees : (m : NetServer) (fd : ℕ) (c : ℤ) → Agrees m (drop_connection m fd c)
unfolding drop_connection
drop_connection-Agrees m fd (negsuc _) = Agrees-emit (shutdown_fd fd) m m (Agrees-refl m)
drop_connection-Agrees m fd (pos k) =
    let p = pending_of m k in
    let q : ConnPending = record p { dead = true; paused = false } in
    let dropped = record m { pending = insert k q m.pending } in
    let same =
      Agrees-emit (shutdown_fd fd) m dropped (Agrees-insert m k q (counted-pending_of m k)) in
    elim (Bool-cases p.paused) [
      | inl d ↦
          rw (d, drop_connection) (Agrees-emit wake_listener m (emit (shutdown_fd fd) dropped) same)
      | inr d ↦ rw (d, drop_connection) same
    ]

over_send_wait_budget-Agrees :
    (m : NetServer) (c : ℤ) (waited now : ℕ) → Agrees m (over_send_wait_budget m c waited now).1
unfolding over_send_wait_budget over_budget_of waited_entry
over_send_wait_budget-Agrees m (negsuc _) waited now = Agrees-refl m
over_send_wait_budget-Agrees m (pos k) zero now = Agrees-refl m
over_send_wait_budget-Agrees m (pos k) (suc w) now = elim (Option-cases (lookup k m.pending)) [
  | inl e ↦
      let is : m ≡ (over_send_wait_budget m (pos k) (suc w) now).1 = ground arith in
      subst (Agrees m) is (Agrees-refl m)
  | inr (p, e) ↦
      let q = waited_entry p (suc w) now in
      let is : record m { pending = insert k q m.pending }
          ≡ (over_send_wait_budget m (pos k) (suc w) now).1 =
        ground arith in
      subst (Agrees m) is (Agrees-insert m k q (ground arith))
]

send_response-Agrees :
    (m : NetServer) (fd : ℕ) (o : NetDataObj) (code : SendCode) (out : Bytes) (waited now : ℕ)
    → Agrees m (send_response m fd o (code, out) waited now)
unfolding send_response
send_response-Agrees m fd o sent_all out waited now =
    let m0 = emit (send_bytes fd out) m in
    let r = over_send_wait_budget m0 o.cltid waited now in
    let counted_it =
      emit-Agrees (send_bytes fd out) m r.1 (over_send_wait_budget-Agrees m0 o.cltid waited now) in
    elim (Bool-cases r.0) [
      | inl e ↦
          let is : emit (close_fd fd) (drop_connection r.1 fd o.cltid)
              ≡ send_response m fd o (sent_all, out) waited now =
            ground arith in
          let dropped = drop_connection r.1 fd o.cltid in
          subst (Agrees m) is (
            Agrees-emit (close_fd fd) m dropped
              (Agrees-trans m r.1 dropped counted_it (drop_connection-Agrees r.1 fd o.cltid)))
      | inr e ↦
          let is : emit (close_fd fd) r.1 ≡ send_response m fd o (sent_all, out) waited now =
            ground arith in
          subst (Agrees m) is (Agrees-emit (close_fd fd) m r.1 counted_it)
    ]
send_response-Agrees m fd o error out waited now =
    let m0 = emit (send_bytes fd out) m in
    let dropped = drop_connection m0 fd o.cltid in
    Agrees-emit (close_fd fd) m dropped
      (emit-Agrees (send_bytes fd out) m dropped (drop_connection-Agrees m0 fd o.cltid))
send_response-Agrees m fd o timed_out out waited now =
    let m0 = emit (send_bytes fd out) m in
    let dropped = drop_connection m0 fd o.cltid in
    Agrees-emit (close_fd fd) m dropped
      (emit-Agrees (send_bytes fd out) m dropped (drop_connection-Agrees m0 fd o.cltid))

-- One response less for its connection.
pub record Answered (o : NetDataObj) (m m' : NetServer) : Type 0 where
  pub json : m'.json_socket ≡ m.json_socket
  pub requests : m'.request_chain ≡ m.request_chain
  pub responses : m'.response_chain ≡ m.response_chain
  pub clients : m'.client_info_chain ≡ m.client_info_chain
  pub counts : (c : ℕ) → counted c m'.pending ≡ counted c m.pending - (if is_of c o then 1 else 0)

response_done-counts :
    (m : NetServer) (k c : ℕ)
    → counted c (response_done m (pos k)).pending
      ≡ counted c m.pending - (if pos k ==ℤ pos c then 1 else 0)
unfolding response_done response_done_of done_entry
response_done-counts m k c = elim (Option-cases (lookup k m.pending)) [
  | inl e ↦ elim (Bool-cases (c == k)) [
    | inl t ↦
        let is : k ≡ c = sym ((==_iff c k).0 t) in
        let none_there : counted c m.pending ≡ 0 =
          subst (λ i. counted i m.pending ≡ 0) is (ap count_of e) in
        let same : m.pending ≡ (response_done m (pos k)).pending = ground arith in
        ap (counted c) (sym same) ∙ omega (arith, none_there)
    | inr t ↦
        let same : m.pending ≡ (response_done m (pos k)).pending = ground arith in
        ap (counted c) (sym same) ∙ ground arith
  ]
  | inr (p, e) ↦
      let p' = (done_entry p).1 in
      let one_less : p'.count ≡ p.count - 1 = ground arith in
      let is : insert k p' m.pending ≡ (response_done m (pos k)).pending =
        elim (Bool-cases ((done_entry p).0)) [ inl d ↦ ground arith | inr d ↦ ground arith ] in
      ap (counted c) (sym is) ∙ elim (Bool-cases (c == k)) [
        | inl t ↦
            let at : k ≡ c = sym ((==_iff c k).0 t) in
            subst
              (λ i.
                counted i (insert k p' m.pending)
                ≡ counted i m.pending - (if pos k ==ℤ pos i then 1 else 0))
              at (ap count_of (lookup-insert k p' m.pending) ∙ ground (arith, one_less, e))
        | inr t ↦ ap count_of (lookup-insert_other c k p' m.pending t) ∙ ground arith
      ]
]

response_done-keeps :
    (m : NetServer) (k : ℕ)
    → let m' = response_done m (pos k) in
      (m'.json_socket ≡ m.json_socket)
      × (m'.request_chain ≡ m.request_chain)
      × (m'.response_chain ≡ m.response_chain)
      × (m'.client_info_chain ≡ m.client_info_chain)
unfolding response_done response_done_of
response_done-keeps m k = elim (Option-cases (lookup k m.pending)) [
  | inl e ↦ rw (e, response_done_of) (refl, refl, refl, refl)
  | inr (p, e) ↦ elim (Bool-cases (done_entry p).0) [
    | inl d ↦ rw (e, response_done_of, d) (refl, refl, refl, refl)
    | inr d ↦ rw (e, response_done_of, d) (refl, refl, refl, refl)
  ]
]

response_done-at :
    (m : NetServer) (o : NetDataObj) (c : ℤ) → o.cltid ≡ c → Answered o m (response_done m c)
unfolding response_done
response_done-at m o (negsuc n) e = record {
  json = refl;
  requests = refl;
  responses = refl;
  clients = refl;
  counts = λ c. rw e (omega arith);
}
response_done-at m o (pos k) e =
    let (json, requests, responses, clients) = response_done-keeps m k in
    record {
      json = json;
      requests = requests;
      responses = responses;
      clients = clients;
      counts = λ c. rw e (response_done-counts m k c);
    }

response_done-Answered : (m : NetServer) (o : NetDataObj) → Answered o m (response_done m o.cltid)
response_done-Answered m o = response_done-at m o o.cltid refl

Answered-after :
    (o : NetDataObj) (m m' m'' : NetServer) → Agrees m m' → Answered o m' m'' → Answered o m m''
Answered-after o m m' m'' f g = record {
  json = g.json ∙ f.json;
  requests = g.requests ∙ f.requests;
  responses = g.responses ∙ f.responses;
  clients = g.clients ∙ f.clients;
  counts = λ c. g.counts c ∙ ap (λ n. n - (if is_of c o then 1 else 0)) (f.counts c);
}

abbrev pub IsAnsweredBy : NetDataObj → NetServer → Option NetServer → Type 0
IsAnsweredBy o m none = Unit {0}
IsAnsweredBy o m (some m') = Answered o m m'

pub respond_to-Answered :
    (m : NetServer) (o : NetDataObj) (env : SendEnv) → IsAnsweredBy o m (respond_to m o env)
unfolding respond_to
respond_to-Answered m o env =
    elim (Option-cases (dup_if_same_client m o.sock_descriptor o.cltid env.alive env.dup_fd)) [
      | inl e ↦
          let is : some (response_done m o.cltid) ≡ respond_to m o env = ground arith in
          subst (IsAnsweredBy o m) is (response_done-Answered m o)
      | inr (fd, e) ↦ elim (Option-cases (send_with_deadline env.start o.data_buffer env.sends).1) [
        | inl f ↦
            let is : none ≡ respond_to m o env = ground arith in subst (IsAnsweredBy o m) is tt
        | inr ((code, out), f) ↦
            let waited = waited_ms_of env.start env.finish code in
            let done = send_response m fd o (code, out) waited env.now in
            let is : some (response_done done o.cltid) ≡ respond_to m o env = ground arith in
            subst (IsAnsweredBy o m) is (
              Answered-after o m done (response_done done o.cltid)
                (send_response-Agrees m fd o code out waited env.now)
                (response_done-Answered done o))
      ]
    ]
