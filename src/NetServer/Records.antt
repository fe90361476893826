-- ===== src/NetServer/Records.antt =====
-- The listen thread of ADNetServer keeps the accounts of the connections that it accepts, reads and closes.
use jsonrpc_tcp_srv.Prelude.{
  ℕ, zero, suc, ◌+◌, ◌≤◌, ◌<◌, List, [], ◌∷◌, Option, none, some, ◌==◌, count, count-append, All,
  All-append, ℤ, pos, negsuc, minus_one, is_negative, ◌≡◌, refl, subst, arith, Bool-cases,
  Option-cases, inl, inr, lookup, insert, if◌then◌else◌, leb,
}
use Prim.Native.String.{String}
use jsonrpc_tcp_srv.Framer.{Bytes, feed, new_framer}
use jsonrpc_tcp_srv.Chain.{Chain, chain_add, chain_put, chain_generate_ident}
use jsonrpc_tcp_srv.NetServer.{
  NetServer, NetDataObj, queue_framed_requests, register_client_info, emit, close_fd,
  max_json_msg_size,
}
use jsonrpc_tcp_srv.NetServer.Listen.{
  Recv, received, interrupted, would_block, failed, end_of_stream, watch, receive, after_json,
  json_receive_of, json_receive_data_and_notify_consumer, read_connection, resume_one, resume_each,
  may_resume, add_fd, remove_fd, close_and_clear, accept_client, print_client_info, fd_setsize,
}
use jsonrpc_tcp_srv.NetServer.Reading.{Next-cases}
use jsonrpc_tcp_srv.NetServer.Accounts.{has_ident, records, IsBalanced}
use jsonrpc_tcp_srv.NetServer.Claims.{queue_framed_requests-IsBalanced}
use jsonrpc_tcp_srv.NetServer.Closing.{close_connection-IsBalanced}

records-above :
    (g c : ℕ) (os : List NetDataObj)
    → All (λ o. o.ident ≤ g) os
    → g < c
    → count (has_ident c) os ≡ 0
records-above g c [] h lt = refl
records-above g c (o ∷ os) h lt = ground (arith, h.0, records-above g c os h.1 lt)

ident-weaken :
    (g : ℕ) (os : List NetDataObj) → All (λ o. o.ident ≤ g) os → All (λ o. o.ident ≤ g + 1) os
ident-weaken g [] h = tt
ident-weaken g (o ∷ os) h = (omega (arith, h.0), ident-weaken g os h.1)

register_client_info-IsBalanced :
    (held : List NetDataObj) (m : NetServer) (fd : ℕ) (port : ℤ) (ip : String)
    → IsBalanced held m
    → IsBalanced held (register_client_info m fd port ip).1
unfolding register_client_info chain_put chain_add chain_generate_ident
register_client_info-IsBalanced held m fd port ip b =
    let k = m.client_info_chain in
    let g = k.ident_generator in
    let o : NetDataObj = record {
      ident = g + 1;
      sock_descriptor = fd;
      port = port;
      ip = ip;
      cltid = minus_one;
      data_buffer = [];
    } in
    let added : Chain NetDataObj = chain_add (record k { ident_generator = g + 1 }) o in
    let is : record m { client_info_chain = added } ≡ (register_client_info m fd port ip).1 =
      ground (arith, b.numbered.live) in
    let many : (c : ℕ) → records c added ≡ records c k + (if g + 1 == c then 1 else 0) =
      λ c. ground (arith, count-append (has_ident c) k.items (o ∷ [])) in
    subst (IsBalanced held) is (record {
      json_on = b.json_on;
      requests_live = b.requests_live;
      responses_live = b.responses_live;
      numbered = record {
        live = b.numbered.live;
        attached = b.numbered.attached;
        numbered =
            All-append (λ x. x.ident ≤ g + 1) k.items (o ∷ [])
              (ident-weaken g k.items b.numbered.numbered) (omega arith, tt);
      };
      single = λ c. elim (Bool-cases (g + 1 == c)) [
        | inl t ↦
            ground (arith, many c, t, records-above g c k.items b.numbered.numbered (ground arith))
        | inr t ↦ ground (arith, many c, t, b.single c)
      ];
      balance = λ c. elim (Bool-cases (g + 1 == c)) [
        | inl t ↦ let none_yet = b.fresh c (ground arith) in inr (omega (arith, none_yet))
        | inr t ↦ elim (b.balance c) [ inl z ↦ inl (ground (arith, many c, t, z)) | inr h ↦ inr h ]
      ];
      fresh = λ c above. b.fresh c (omega (arith, above));
    })

print_client_info-IsBalanced :
    (held : List NetDataObj) (m : NetServer) (fd : ℕ) (peer : Option (ℤ × String))
    → IsBalanced held m
    → IsBalanced held (print_client_info m fd peer)
unfolding print_client_info
print_client_info-IsBalanced held m fd none b =
    register_client_info-IsBalanced held m fd minus_one "" b
print_client_info-IsBalanced held m fd (some (port, ip)) b =
    register_client_info-IsBalanced held m fd port ip b

pub accept_client-IsBalanced :
    (held : List NetDataObj) (m : NetServer) (fd : ℕ) (peer : Option (ℤ × String))
    → IsBalanced held m
    → IsBalanced held (accept_client m fd peer)
unfolding accept_client watch
accept_client-IsBalanced held m fd peer b =
    let known = print_client_info m fd peer in
    let registered = print_client_info-IsBalanced held m fd peer b in
    elim (Bool-cases (leb fd_setsize fd)) [
      | inl e ↦
          let is : emit (close_fd fd) m ≡ accept_client m fd peer = ground arith in
          subst (IsBalanced held) is b
      | inr e ↦
          let framed : NetServer = record known {
            framers = insert fd (new_framer max_json_msg_size) known.framers;
          } in
          let is : watch framed fd ≡ accept_client m fd peer = ground (arith, registered.json_on) in
          subst (IsBalanced held) is registered
    ]

resume_one-IsBalanced :
    (held : List NetDataObj) (m : NetServer) (fd : ℕ)
    → IsBalanced held m
    → IsBalanced held (resume_one m fd)
unfolding resume_one watch
resume_one-IsBalanced held m fd h =
    let m0 = record m { paused_fds = remove_fd fd m.paused_fds } in
    let q = queue_framed_requests m0 fd in
    let queued = queue_framed_requests-IsBalanced held m0 fd h in
    elim (Bool-cases (may_resume m fd)) [
      | inr e ↦ let is : m ≡ resume_one m fd = ground arith in subst (IsBalanced held) is h
      | inl e ↦ elim (Bool-cases q.0) [
        | inl d ↦
            let is : record q.1 { paused_fds = add_fd fd q.1.paused_fds } ≡ resume_one m fd =
              ground arith in
            subst (IsBalanced held) is queued
        | inr d ↦
            let is : watch q.1 fd ≡ resume_one m fd = ground arith in
            subst (IsBalanced held) is queued
      ]
    ]

pub resume_each-IsBalanced :
    (held : List NetDataObj) (fds : List ℕ) (m : NetServer)
    → IsBalanced held m
    → IsBalanced held (resume_each m fds)
unfolding resume_each
resume_each-IsBalanced held [] m h = h
resume_each-IsBalanced held (fd ∷ fds) m h =
    resume_each-IsBalanced held fds (resume_one m fd) (resume_one-IsBalanced held m fd h)

json_receive-IsBalanced :
    (held : List NetDataObj) (m : NetServer) (fd : ℕ) (bytes : Bytes)
    → IsBalanced held m
    → IsBalanced held (json_receive_data_and_notify_consumer m fd bytes).1
unfolding json_receive_data_and_notify_consumer json_receive_of
json_receive-IsBalanced held m fd bytes h = elim (Option-cases (lookup fd m.framers)) [
  | inl e ↦
      let is : m ≡ (json_receive_data_and_notify_consumer m fd bytes).1 = ground arith in
      subst (IsBalanced held) is h
  | inr (f, e) ↦
      let m0 = record m { framers = insert fd (feed f bytes).1 m.framers } in
      let q = queue_framed_requests m0 fd in
      let is : q.1 ≡ (json_receive_data_and_notify_consumer m fd bytes).1 =
        elim (Bool-cases (is_negative (feed f bytes).0)) [
          | inl d ↦ ground arith
          | inr d ↦ ground arith
        ] in
      subst (IsBalanced held) is (queue_framed_requests-IsBalanced held m0 fd h)
]

after_json-IsBalanced :
    (held : List NetDataObj) (m : NetServer) (fd : ℕ) (rc : ℤ)
    → IsBalanced held m
    → IsBalanced held (after_json m fd rc).1
unfolding after_json
after_json-IsBalanced held m fd (negsuc _) h = h
after_json-IsBalanced held m fd (pos zero) h = h
after_json-IsBalanced held m fd (pos (suc _)) h = h

receive-IsBalanced :
    (held : List NetDataObj) (m : NetServer) (fd : ℕ) (r : Recv)
    → IsBalanced held m
    → IsBalanced held (receive m fd r).1
unfolding receive
receive-IsBalanced held m fd interrupted h = h
receive-IsBalanced held m fd would_block h = h
receive-IsBalanced held m fd failed h = h
receive-IsBalanced held m fd end_of_stream h = h
receive-IsBalanced held m fd (received bytes) h =
    let q = json_receive_data_and_notify_consumer m fd bytes in
    let is : (after_json q.1 fd q.0).1 ≡ (receive m fd (received bytes)).1 =
      ground (arith, h.json_on) in
    subst (IsBalanced held) is
      (after_json-IsBalanced held q.1 fd q.0 (json_receive-IsBalanced held m fd bytes h))

pub read_connection-IsBalanced :
    (held : List NetDataObj) (rs : List Recv) (m : NetServer) (fd : ℕ)
    → IsBalanced held m
    → IsBalanced held (read_connection m fd rs)
unfolding read_connection close_and_clear
read_connection-IsBalanced held [] m fd h = h
read_connection-IsBalanced held (r ∷ rs) m fd h =
    let m' = (receive m fd r).1 in
    let received_it = receive-IsBalanced held m fd r h in
    elim (Next-cases (receive m fd r).0) [
      | inl e ↦
          let is : read_connection m' fd rs ≡ read_connection m fd (r ∷ rs) = ground arith in
          subst (IsBalanced held) is (read_connection-IsBalanced held rs m' fd received_it)
      | inr (inl e) ↦
          let is : m' ≡ read_connection m fd (r ∷ rs) = ground arith in
          subst (IsBalanced held) is received_it
      | inr (inr e) ↦
          let is : close_and_clear m' fd ≡ read_connection m fd (r ∷ rs) = ground arith in
          subst (IsBalanced held) is (close_connection-IsBalanced held m' fd received_it)
    ]
