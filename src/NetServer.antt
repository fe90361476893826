-- ===== src/NetServer.antt =====
-- lib/lib-jsonrpc-tcp ADNetServer (.hpp, .cpp): the TCP server's connections, their unanswered requests
-- and the responses. A file descriptor is a number. A section under `pending_lock` or a chain's mutex
-- is part of one step; the system calls are outputs in `trace`, last first, and their results are
-- arguments. Allocation succeeds.
pub mod Listen
pub mod Sending
pub mod Pending
pub mod Reading
pub mod Responding
pub mod Accounts
pub mod Shifts
pub mod Claims
pub mod Closing
pub mod Records
pub mod Answered
pub mod Answering
pub mod System
pub mod Reuse
pub mod Backpressure
pub mod Queueing
pub mod Deadline
mod Tests
use Prim.Native.String.{String}
use jsonrpc_tcp_srv.Prelude.{
  ℕ, zero, suc, ◌+◌, ◌-◌, Bool, true, false, not, ◌&&◌, List, [], ◌∷◌, Option, none, some, ltb, leb,
  ◌==◌, if◌then◌else◌, length, keep_if, ℤ, pos, negsuc, minus_one, ◌==ℤ◌, is_negative, Map, lookup,
  insert, erase,
}
use jsonrpc_tcp_srv.Framer.{Bytes, Framer, new_framer, next, available, reset}
use jsonrpc_tcp_srv.Chain.{
  Chain, new_chain, attach_helper, chain_put, chain_get, chain_get_by_ident, chain_remove_by_ident,
  chain_generate_ident,
}

-- `data_buffer` with `data_buffer_len`.
pub record NetDataObj : Type 0 where
  pub ident : ℕ
  pub sock_descriptor : ℕ
  pub port : ℤ
  pub ip : String
  pub cltid : ℤ
  pub data_buffer : Bytes

pub record ConnPending : Type 0 where
  pub count : ℕ
  pub paused : Bool
  pub dead : Bool
  pub wait_ms : ℕ
  pub window_start_ms : ℕ

-- What the server asks of the system and of its consumer.
pub data Output : Type 0 where
  close_fd : ℕ → Output
  shutdown_fd : ℕ → Output
  send_bytes : ℕ → Bytes → Output
  protocol_error : ℕ → Output
  wake_listener : Output
  wake_responder : Output
  data_arrival : Output

abbrev pub max_json_msg_size : ℕ
max_json_msg_size = 262144

abbrev pub send_wait_budget_ms : ℕ
send_wait_budget_ms = 5000

abbrev pub send_wait_window_ms : ℕ
send_wait_window_ms = 60000

abbrev pub max_pending_per_conn : ℕ
max_pending_per_conn = 256

pub record NetServer : Type 0 where
  pub framers : Map Framer
  pub pending : Map ConnPending
  pub paused_fds : List ℕ
  pub master_set : List ℕ
  pub max_sd : ℕ
  pub json_socket : Bool
  pub end_server : Bool
  pub request_chain : Chain NetDataObj
  pub response_chain : Chain NetDataObj
  pub client_info_chain : Chain NetDataObj
  pub trace : List Output

unfoldable pub new_net_server : NetServer
unfolding new_chain attach_helper
new_net_server = record {
  framers = [];
  pending = [];
  paused_fds = [];
  master_set = [];
  max_sd = 0;
  json_socket = true;
  end_server = false;
  request_chain = (attach_helper new_chain).1;
  response_chain = (attach_helper new_chain).1;
  client_info_chain = (attach_helper new_chain).1;
  trace = [];
}

abbrev pub emit : Output → NetServer → NetServer
emit o m = record m { trace = o ∷ m.trace }

abbrev pub identify : ℕ → NetDataObj → Bool
identify fd obj = obj.sock_descriptor == fd

pub new_conn_pending : ConnPending
new_conn_pending = record {
  count = 0;
  paused = false;
  dead = false;
  wait_ms = 0;
  window_start_ms = 0;
}

-- `pending[cltid]`, which makes a missing entry.
pub pending_of : NetServer → ℕ → ConnPending
unfolding new_conn_pending
pending_of m cltid = elim (lookup cltid m.pending) [ none ↦ new_conn_pending | some p ↦ p ]

-- `*cltip`, `*cltport` and `*cltid`, or `none` for the return code -1.
pub get_client_info : NetServer → ℕ → Option (String × ℤ × ℕ)
get_client_info m sock_descr = elim (chain_get_by_ident identify m.client_info_chain sock_descr) [
  | none ↦ none
  | some info ↦ some (info.ip, info.port, info.ident)
]

pub register_client_info : NetServer → ℕ → ℤ → String → Bool × NetServer
register_client_info m sock_descr clt_port clt_ip =
    let (id, c) = chain_generate_ident m.client_info_chain in
    let (put, c') = chain_put c (record {
      ident = id;
      sock_descriptor = sock_descr;
      port = clt_port;
      ip = clt_ip;
      cltid = minus_one;
      data_buffer = [];
    }) in
    (put, record m { client_info_chain = c' })

-- The loop removes until nothing is found, so that the fuel is the number of elements.
pub deregister_loop : ℕ → Chain NetDataObj → ℕ → Chain NetDataObj
deregister_loop zero c sock_descr = c
deregister_loop (suc fuel) c sock_descr =
    let (found, c') = chain_remove_by_ident identify c sock_descr in
    let rest = deregister_loop fuel c' sock_descr in elim found [ none ↦ c | some _ ↦ rest ]

pub deregister_client_info : NetServer → ℕ → NetServer
unfolding deregister_loop
deregister_client_info m sock_descr = record m {
  client_info_chain =
      deregister_loop (length m.client_info_chain.items) m.client_info_chain sock_descr;
}

dead_of : Option ConnPending → Bool
dead_of none = false
dead_of (some p) = p.dead

pub connection_dead : NetServer → ℤ → Bool
unfolding dead_of
connection_dead m (negsuc _) = false
connection_dead m (pos cltid) = dead_of (lookup cltid m.pending)

-- One response less; it says whether a paused connection goes on.
done_entry : ConnPending → Bool × ConnPending
done_entry p =
    let p' = record p { count = p.count - 1 } in
    if p.paused && leb p'.count 128 then (true, record p' { paused = false }) else (false, p')

response_done_of : NetServer → ℕ → Option ConnPending → NetServer
unfolding done_entry
response_done_of m cltid none = m
response_done_of m cltid (some p) =
    let (wake, p') = done_entry p in
    let m' = record m { pending = insert cltid p' m.pending } in
    if wake then emit wake_listener m' else m'

-- `max_pending_per_conn / 2` is 128; `count` stays 0 at 0.
pub response_done : NetServer → ℤ → NetServer
unfolding response_done_of
response_done m (negsuc _) = m
response_done m (pos cltid) = response_done_of m cltid (lookup cltid m.pending)

-- One pass of the loop of `queue_framed_requests` under the lock: room for one more request, or the
-- connection is paused.
pub claim : NetServer → ℕ → Bool × NetServer
unfolding pending_of
claim m cltid =
    let p = pending_of m cltid in
    if leb max_pending_per_conn p.count
    then (false, record m { pending = insert cltid (record p { paused = true }) m.pending })
    else (true, record m { pending = insert cltid (record p { count = p.count + 1 }) m.pending })

-- The rest of the pass: the framer's next message goes to the request chain.
pub put_request : NetServer → ℕ → Framer → String × ℤ × ℕ → Bytes → Bool × NetServer
put_request m fd f (ip, port, cltid) msg =
    let (id, c) = chain_generate_ident m.request_chain in
    let (put, c') = chain_put c (record {
      ident = id;
      sock_descriptor = fd;
      port = port;
      ip = ip;
      cltid = pos cltid;
      data_buffer = msg;
    }) in
    (put, record m { request_chain = c'; framers = insert fd f m.framers })

-- The loop, with the messages in the framer as fuel: `queued`, `paused` and the server after.
pub queue_loop : List Bytes → NetServer → ℕ → Framer → String × ℤ × ℕ → ℕ × Bool × NetServer
unfolding claim put_request
queue_loop [] m fd f info = (0, false, m)
queue_loop (msg ∷ msgs) m fd f info =
    let (room, m') = claim m (info.2) in
    let f' = (next f).1 in
    let (put, m'') = put_request m' fd f' info msg in
    let (queued, paused, m''') = queue_loop msgs m'' fd f' info in
    if not room
    then (0, true, m')
    else if not put
    then (0, false, response_done m'' (pos (info.2)))
    else (queued + 1, paused, m''')

-- `notify_data_arrival` if any request was queued.
notify_queued : ℕ × Bool × NetServer → Bool × NetServer
notify_queued (queued, paused, m) = (paused, (if ltb 0 queued then emit data_arrival m else m))

queue_known : NetServer → ℕ → Framer → Option (String × ℤ × ℕ) → Bool × NetServer
unfolding queue_loop notify_queued reset
queue_known m fd f none = (false, record m { framers = insert fd (reset f) m.framers })
queue_known m fd f (some info) =
    if connection_dead m (pos (info.2))
    then (false, record m { framers = insert fd (reset f) m.framers })
    else notify_queued (queue_loop f.ready m fd f info)

queue_framer : NetServer → ℕ → Option Framer → Bool × NetServer
unfolding queue_known get_client_info
queue_framer m fd none = (false, m)
queue_framer m fd (some f) =
    if available f == 0 then (false, m) else queue_known m fd f (get_client_info m fd)

-- The result is true if the connection must be paused.
pub queue_framed_requests : NetServer → ℕ → Bool × NetServer
unfolding queue_framer
queue_framed_requests m fd = queue_framer m fd (lookup fd m.framers)
