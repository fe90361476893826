-- ===== src/NetServer/Reading.antt =====
-- The listen thread of ADNetServer keeps the bound on unanswered requests.
use jsonrpc_tcp_srv.Prelude.{
  ℕ, zero, suc, Bool, List, [], ◌∷◌, length, ℤ, pos, negsuc, ◌≡◌, refl, ap, sym, subst, arith,
  Bool-cases, Option-cases, List-cases, inl, inr, ◌⊎◌, lookup, insert, erase, is_negative,
  minus_one,
}
use Prim.Native.String.{String}
use jsonrpc_tcp_srv.Framer.{Bytes, Framer, next, reset, feed}
use jsonrpc_tcp_srv.NetServer.{
  NetServer, queue_loop, claim, put_request, response_done, notify_queued, queue_known,
  queue_framer, queue_framed_requests, get_client_info, connection_dead, deregister_client_info,
}
use jsonrpc_tcp_srv.NetServer.Listen.{
  Recv, received, interrupted, would_block, failed, end_of_stream, Next, read_again, leave,
  close_conn, watch, receive, after_json, json_receive_of, json_receive_data_and_notify_consumer,
  binary_put, binary_receive_data_and_notify_consumer, read_connection, resume_one, resume_each,
  may_resume, remove_fd, close_connection, close_and_clear,
}
use jsonrpc_tcp_srv.NetServer.Pending.{
  IsBounded, erase-IsBounded, claim-IsBounded, response_done-IsBounded,
}

abbrev pub IsBoundedServer : NetServer → Type 0
IsBoundedServer m = IsBounded m.pending

queue_loop-IsBounded :
    (msgs : List Bytes) (m : NetServer) (fd : ℕ) (f : Framer) (info : String × ℤ × ℕ)
    → IsBoundedServer m
    → IsBoundedServer (queue_loop msgs m fd f info).2
unfolding queue_loop put_request
queue_loop-IsBounded [] m fd f info h = h
queue_loop-IsBounded (msg ∷ msgs) m fd f info h =
    let m1 = (claim m (info.2)).1 in
    let f' = (next f).1 in
    let sent = put_request m1 fd f' info msg in
    let claimed : IsBoundedServer sent.1 = claim-IsBounded m (info.2) h in
    elim (Bool-cases (claim m (info.2)).0) [
      | inr e ↦
          let is : m1 ≡ (queue_loop (msg ∷ msgs) m fd f info).2 = ground arith in
          subst IsBoundedServer is (claim-IsBounded m (info.2) h)
      | inl e ↦ elim (Bool-cases sent.0) [
        | inr d ↦
            let is : response_done sent.1 (pos (info.2)) ≡ (queue_loop (msg ∷ msgs) m fd f info).2 =
              ground arith in
            subst IsBoundedServer is (response_done-IsBounded sent.1 (pos (info.2)) claimed)
        | inl d ↦
            let is : (queue_loop msgs sent.1 fd f' info).2
                ≡ (queue_loop (msg ∷ msgs) m fd f info).2 =
              ground arith in
            subst IsBoundedServer is (queue_loop-IsBounded msgs sent.1 fd f' info claimed)
      ]
    ]

notify_queued-pending :
    (q : ℕ) (b : Bool) (m : NetServer) → (notify_queued (q, b, m)).1.pending ≡ m.pending
unfolding notify_queued
notify_queued-pending q b m = ground arith

queue_framed_requests-IsBounded :
    (m : NetServer) (fd : ℕ) → IsBoundedServer m → IsBoundedServer (queue_framed_requests m fd).1
unfolding queue_framed_requests queue_framer queue_known
queue_framed_requests-IsBounded m fd h = elim (Option-cases (lookup fd m.framers)) [
  | inl e ↦ let is : m ≡ (queue_framed_requests m fd).1 = ground arith in subst IsBoundedServer is h
  | inr (f, e) ↦ elim (List-cases f.ready) [
    | inl z ↦
        let is : m ≡ (queue_framed_requests m fd).1 = ground (arith, ap length z) in
        subst IsBoundedServer is h
    | inr (msg, msgs, z) ↦
        let gone = record m { framers = insert fd (reset f) m.framers } in
        elim (Option-cases (get_client_info m fd)) [
          | inl i ↦
              let is : gone ≡ (queue_framed_requests m fd).1 = ground (arith, ap length z) in
              subst IsBoundedServer is h
          | inr (info, i) ↦ elim (Bool-cases (connection_dead m (pos (info.2)))) [
            | inl d ↦
                let is : gone ≡ (queue_framed_requests m fd).1 = ground (arith, ap length z) in
                subst IsBoundedServer is h
            | inr d ↦
                let q = queue_loop f.ready m fd f info in
                let is : (notify_queued q).1 ≡ (queue_framed_requests m fd).1 =
                  ground (arith, ap length z) in
                subst IsBoundedServer is (
                  subst IsBounded (sym (notify_queued-pending q.0 q.1 q.2))
                    (queue_loop-IsBounded f.ready m fd f info h))
          ]
        ]
  ]
]

resume_one-IsBounded :
    (m : NetServer) (fd : ℕ) → IsBoundedServer m → IsBoundedServer (resume_one m fd)
unfolding resume_one watch
resume_one-IsBounded m fd h =
    let m0 = record m { paused_fds = remove_fd fd m.paused_fds } in
    let q = queue_framed_requests m0 fd in
    let queued = queue_framed_requests-IsBounded m0 fd h in
    elim (Bool-cases (may_resume m fd)) [
      | inr e ↦
          let is : m.pending ≡ (resume_one m fd).pending = ground arith in subst IsBounded is h
      | inl e ↦
          let is : q.1.pending ≡ (resume_one m fd).pending = elim (Bool-cases q.0) [
            | inl d ↦ ground arith
            | inr d ↦ ground arith
          ] in
          subst IsBounded is queued
    ]

pub resume_each-IsBounded :
    (fds : List ℕ) (m : NetServer) → IsBoundedServer m → IsBoundedServer (resume_each m fds)
unfolding resume_each
resume_each-IsBounded [] m h = h
resume_each-IsBounded (fd ∷ fds) m h =
    resume_each-IsBounded fds (resume_one m fd) (resume_one-IsBounded m fd h)

close_connection-IsBounded :
    (m : NetServer) (fd : ℕ) → IsBoundedServer m → IsBoundedServer (close_connection m fd)
unfolding close_connection deregister_client_info
close_connection-IsBounded m fd h = elim (Option-cases (get_client_info m fd)) [
  | inl e ↦
      let is : m.pending ≡ (close_connection m fd).pending = ground arith in subst IsBounded is h
  | inr (info, e) ↦
      let is : erase (info.2) m.pending ≡ (close_connection m fd).pending = ground arith in
      subst IsBounded is (erase-IsBounded (info.2) m.pending h)
]

json_receive-IsBounded :
    (m : NetServer) (fd : ℕ) (bytes : Bytes)
    → IsBoundedServer m
    → IsBoundedServer (json_receive_data_and_notify_consumer m fd bytes).1
unfolding json_receive_data_and_notify_consumer json_receive_of
json_receive-IsBounded m fd bytes h = elim (Option-cases (lookup fd m.framers)) [
  | inl e ↦
      let is : m ≡ (json_receive_data_and_notify_consumer m fd bytes).1 = ground arith in
      subst IsBoundedServer is h
  | inr (f, e) ↦
      let m0 = record m { framers = insert fd (feed f bytes).1 m.framers } in
      let q = queue_framed_requests m0 fd in
      let is : q.1 ≡ (json_receive_data_and_notify_consumer m fd bytes).1 =
        elim (Bool-cases (is_negative (feed f bytes).0)) [
          | inl d ↦ ground arith
          | inr d ↦ ground arith
        ] in
      subst IsBoundedServer is (queue_framed_requests-IsBounded m0 fd h)
]

after_json-pending : (m : NetServer) (fd : ℕ) (rc : ℤ) → (after_json m fd rc).1.pending ≡ m.pending
unfolding after_json
after_json-pending m fd (negsuc _) = refl
after_json-pending m fd (pos zero) = refl
after_json-pending m fd (pos (suc _)) = refl

binary_put-pending :
    (m : NetServer) (fd : ℕ) (bytes : Bytes) (ip : String) (port cltid : ℤ)
    → (binary_put m fd bytes ip port cltid).1.pending ≡ m.pending
unfolding binary_put
binary_put-pending m fd bytes ip port cltid = ground arith

binary_receive-pending :
    (m : NetServer) (fd : ℕ) (bytes : Bytes)
    → (binary_receive_data_and_notify_consumer m fd bytes).1.pending ≡ m.pending
unfolding binary_receive_data_and_notify_consumer
binary_receive-pending m fd bytes = elim (Option-cases (get_client_info m fd)) [
  | inl e ↦ ground (arith, binary_put-pending m fd bytes "" minus_one minus_one)
  | inr ((ip, port, cltid), e) ↦ ground (arith, binary_put-pending m fd bytes ip port (pos cltid))
]

receive-IsBounded :
    (m : NetServer) (fd : ℕ) (r : Recv) → IsBoundedServer m → IsBoundedServer (receive m fd r).1
unfolding receive
receive-IsBounded m fd interrupted h = h
receive-IsBounded m fd would_block h = h
receive-IsBounded m fd failed h = h
receive-IsBounded m fd end_of_stream h = h
receive-IsBounded m fd (received bytes) h =
    let q = json_receive_data_and_notify_consumer m fd bytes in
    elim (Bool-cases m.json_socket) [
      | inl e ↦
          let is : q.1.pending ≡ (receive m fd (received bytes)).1.pending =
            ground (arith, after_json-pending q.1 fd q.0) in
          subst IsBounded is (json_receive-IsBounded m fd bytes h)
      | inr e ↦
          let is : m.pending ≡ (receive m fd (received bytes)).1.pending =
            ground (arith, binary_receive-pending m fd bytes) in
          subst IsBounded is h
    ]

pub Next-cases : (n : Next) → (n ≡ read_again) ⊎ (n ≡ leave) ⊎ (n ≡ close_conn)
Next-cases read_again = inl refl
Next-cases leave = inr (inl refl)
Next-cases close_conn = inr (inr refl)

close_and_clear-IsBounded :
    (m : NetServer) (fd : ℕ) → IsBoundedServer m → IsBoundedServer (close_and_clear m fd)
unfolding close_and_clear
close_and_clear-IsBounded m fd h = close_connection-IsBounded m fd h

pub read_connection-IsBounded :
    (rs : List Recv) (m : NetServer) (fd : ℕ)
    → IsBoundedServer m
    → IsBoundedServer (read_connection m fd rs)
unfolding read_connection
read_connection-IsBounded [] m fd h = h
read_connection-IsBounded (r ∷ rs) m fd h =
    let m' = (receive m fd r).1 in
    let received_it = receive-IsBounded m fd r h in
    elim (Next-cases (receive m fd r).0) [
      | inl e ↦
          let is : read_connection m' fd rs ≡ read_connection m fd (r ∷ rs) = ground arith in
          subst IsBoundedServer is (read_connection-IsBounded rs m' fd received_it)
      | inr (inl e) ↦
          let is : m' ≡ read_connection m fd (r ∷ rs) = ground arith in
          subst IsBoundedServer is received_it
      | inr (inr e) ↦
          let is : close_and_clear m' fd ≡ read_connection m fd (r ∷ rs) = ground arith in
          subst IsBoundedServer is (close_and_clear-IsBounded m' fd received_it)
    ]
