-- ===== src/NetServer/Listen.antt =====
-- lib/lib-jsonrpc-tcp ADNetServer.cpp: the listen thread, which accepts connections, reads them,
-- pauses and resumes them and closes them. `FD_SET` and `FD_CLR` act on the list `master_set`. The
-- name of a peer (`getnameinfo`) is an argument of `accept_client`.
use Prim.Native.String.{String}
use jsonrpc_tcp_srv.Prelude.{
  ℕ, zero, suc, Bool, true, false, not, ◌||◌, List, [], ◌∷◌, ◌++◌, Option, none, some, ltb, leb,
  ◌==◌, if◌then◌else◌, keep_if, any, ℤ, pos, negsuc, minus_one, is_negative, lookup, insert, erase,
  Map,
}
use jsonrpc_tcp_srv.Framer.{Bytes, Framer, new_framer, feed}
use jsonrpc_tcp_srv.Chain.{chain_put, chain_generate_ident, remove_all}
use jsonrpc_tcp_srv.NetServer.{
  NetServer, ConnPending, emit, close_fd, protocol_error, data_arrival, queue_framed_requests,
  get_client_info, register_client_info, deregister_client_info, max_json_msg_size,
}

abbrev pub fd_setsize : ℕ
fd_setsize = 1024

-- Sets of descriptors.
abbrev pub add_fd : ℕ → List ℕ → List ℕ
add_fd fd fds = if any (λ x. x == fd) fds then fds else fds ++ fd ∷ []

abbrev pub remove_fd : ℕ → List ℕ → List ℕ
remove_fd fd fds = keep_if (λ x. not (x == fd)) fds

abbrev pub has_fd : ℕ → List ℕ → Bool
has_fd fd fds = any (λ x. x == fd) fds

-- `FD_SET` with the update of `max_sd`.
unfoldable pub watch : NetServer → ℕ → NetServer
watch m fd = record m {
  master_set = add_fd fd m.master_set;
  max_sd = if ltb m.max_sd fd then fd else m.max_sd;
}

unfoldable pub json_receive_of : NetServer → ℕ → Bytes → Option Framer → ℤ × NetServer
json_receive_of m fd bytes none = (minus_one, m)
json_receive_of m fd bytes (some f) =
    let (frc, f') = feed f bytes in
    let (paused, m') = queue_framed_requests (record m { framers = insert fd f' m.framers }) fd in
    if is_negative frc then (minus_one, m') else (pos (if paused then 1 else 0), m')

unfoldable pub json_receive_data_and_notify_consumer : NetServer → ℕ → Bytes → ℤ × NetServer
unfolding json_receive_of
json_receive_data_and_notify_consumer m fd bytes = json_receive_of m fd bytes (lookup fd m.framers)

-- An unknown connection has the port and the id -1 and no address.
unfoldable pub binary_put : NetServer → ℕ → Bytes → String → ℤ → ℤ → Bool × NetServer
binary_put m fd bytes ip port cltid =
    let (id, c) = chain_generate_ident m.request_chain in
    let (put, c') = chain_put c (record {
      ident = id;
      sock_descriptor = fd;
      port = port;
      ip = ip;
      cltid = cltid;
      data_buffer = bytes;
    }) in
    let m' = record m { request_chain = c' } in (put, (if put then emit data_arrival m' else m'))

unfoldable pub binary_receive_data_and_notify_consumer : NetServer → ℕ → Bytes → Bool × NetServer
unfolding binary_put
binary_receive_data_and_notify_consumer m fd bytes = elim (get_client_info m fd) [
  | none ↦ binary_put m fd bytes "" minus_one minus_one
  | some (ip, port, cltid) ↦ binary_put m fd bytes ip port (pos cltid)
]

unfoldable pub close_connection : NetServer → ℕ → NetServer
close_connection m fd =
    let pending' : Map ConnPending = elim (get_client_info m fd) [
      | none ↦ m.pending
      | some (ip, port, cltid) ↦ erase cltid m.pending
    ] in
    let m' =
      deregister_client_info
        (record m { pending = pending'; paused_fds = remove_fd fd m.paused_fds }) fd in
    emit (close_fd fd) (record m' { framers = erase fd m'.framers })

-- `max_sd` goes down to the highest descriptor that is still set.
unfoldable pub highest_set : List ℕ → ℕ → ℕ
highest_set fds zero = 0
highest_set fds (suc n) = let rest = highest_set fds n in if has_fd (suc n) fds then suc n else rest

-- The end of a readable descriptor's turn when `close_conn` is set.
unfoldable pub close_and_clear : NetServer → ℕ → NetServer
unfolding highest_set
close_and_clear m fd =
    let m' = close_connection m fd in
    let fds = remove_fd fd m'.master_set in
    record m' {
      master_set = fds;
      max_sd = if fd == m'.max_sd then highest_set fds m'.max_sd else m'.max_sd;
    }

unfoldable pub still_paused : Option ConnPending → Bool
still_paused none = false
still_paused (some p) = p.paused

-- One connection of `paused_fds`: whether it is to be resumed.
unfoldable pub may_resume : NetServer → ℕ → Bool
unfolding still_paused
may_resume m fd = elim (get_client_info m fd) [
  | none ↦ true
  | some (ip, port, cltid) ↦ not (still_paused (lookup cltid m.pending))
]

unfoldable pub resume_one : NetServer → ℕ → NetServer
resume_one m fd =
    let (paused, m') =
      queue_framed_requests (record m { paused_fds = remove_fd fd m.paused_fds }) fd in
    if not (may_resume m fd)
    then m
    else if paused
    then record m' { paused_fds = add_fd fd m'.paused_fds }
    else watch m' fd

unfoldable pub resume_each : NetServer → List ℕ → NetServer
unfolding resume_one
resume_each m [] = m
resume_each m (fd ∷ fds) = resume_each (resume_one m fd) fds

-- Also the handler of a select timeout and of the wake-up pipe.
unfoldable pub resume_paused_connections : NetServer → NetServer
unfolding resume_each
resume_paused_connections m = resume_each m m.paused_fds

-- `print_client_info`: the peer's port and address, or `none` when `getnameinfo` fails.
unfoldable pub print_client_info : NetServer → ℕ → Option (ℤ × String) → NetServer
print_client_info m new_sd none = (register_client_info m new_sd minus_one "").1
print_client_info m new_sd (some (port, ip)) = (register_client_info m new_sd port ip).1

-- One connection that `accept4` returned.
unfoldable pub accept_client : NetServer → ℕ → Option (ℤ × String) → NetServer
accept_client m new_sd peer =
    let m' = print_client_info m new_sd peer in
    let framed =
      if m'.json_socket
      then record m' { framers = insert new_sd (new_framer max_json_msg_size) m'.framers }
      else m' in
    if leb fd_setsize new_sd then emit (close_fd new_sd) m else watch framed new_sd

-- The results of `recv`.
pub data Recv : Type 0 where
  received : Bytes → Recv
  interrupted would_block failed end_of_stream : Recv

-- What a pass of the read loop does next.
pub data Next : Type 0 where
  read_again leave close_conn : Next

unfoldable pub after_json : NetServer → ℕ → ℤ → Next × NetServer
after_json m fd (negsuc _) = (close_conn, emit (protocol_error fd) m)
after_json m fd (pos zero) = (read_again, m)
after_json m fd (pos (suc _)) = (
  leave,
  record m { master_set = remove_fd fd m.master_set; paused_fds = add_fd fd m.paused_fds },
)

-- One pass of the loop that reads a connection.
unfoldable pub receive : NetServer → ℕ → Recv → Next × NetServer
unfolding after_json
receive m fd interrupted = (read_again, m)
receive m fd would_block = (leave, m)
receive m fd failed = (close_conn, m)
receive m fd end_of_stream = (close_conn, m)
receive m fd (received bytes) =
    let (rc, m') = json_receive_data_and_notify_consumer m fd bytes in
    if m.json_socket
    then after_json m' fd rc
    else (read_again, (binary_receive_data_and_notify_consumer m fd bytes).1)

-- The whole turn of a readable connection, with the results that `recv` gives in it.
unfoldable pub read_connection : NetServer → ℕ → List Recv → NetServer
unfolding receive
read_connection m fd [] = m
read_connection m fd (r ∷ rs) =
    let (go_on, m') = receive m fd r in
    let rest = read_connection m' fd rs in
    elim go_on [ read_again ↦ rest | leave ↦ m' | close_conn ↦ close_and_clear m' fd ]

-- `close_connection` for each descriptor.
unfoldable pub close_each : NetServer → List ℕ → NetServer
close_each m [] = m
close_each m (fd ∷ fds) = close_each (close_connection m fd) fds

-- The descriptors of `master_set`, of which the server's own are only closed.
unfoldable pub close_set : NetServer → ℕ → ℕ → List ℕ → NetServer
close_set m listen_sd wake_fd [] = m
close_set m listen_sd wake_fd (fd ∷ fds) =
    close_set
      (if fd == listen_sd || fd == wake_fd then emit (close_fd fd) m else close_connection m fd)
      listen_sd wake_fd fds

-- `stop_listening`, after both threads ended; `wake_fd` and `wake_end` are the two ends of
-- `wake_pipe`.
unfoldable pub stop_listening : NetServer → ℕ → ℕ → ℕ → NetServer
unfolding close_each close_set
stop_listening m listen_sd wake_fd wake_end =
    let m1 = close_each (record m { end_server = true }) m.paused_fds in
    let m2 = record m1 {
      request_chain = (remove_all m1.request_chain).1;
      response_chain = (remove_all m1.response_chain).1;
      client_info_chain = (remove_all m1.client_info_chain).1;
    } in
    let m3 = close_set m2 listen_sd wake_fd m2.master_set in
    emit (close_fd wake_end) (record m3 { pending = [] })
