-- ===== src/NetServer/Tests.antt =====
-- The server's properties at concrete states.
use Prim.Native.String.{String}
use jsonrpc_tcp_srv.Prelude.{
  ℕ, ◌+◌, true, false, List, [], ◌∷◌, none, some, length, take, ℤ, pos, minus_one, ◌≡◌, ◌<◌, refl,
  arith, ◌⊎◌, ◌≤◌, Bool,
}
use jsonrpc_tcp_srv.Framer.{Bytes, Framer}
use jsonrpc_tcp_srv.Chain.{Chain, chain_get_by_ident}
use jsonrpc_tcp_srv.NetServer.{
  NetServer, NetDataObj, queue_framed_requests, get_client_info, pending_of, connection_dead,
  dead_of, max_pending_per_conn,
}
use jsonrpc_tcp_srv.NetServer.Listen.{accept_client, close_connection, received}
use jsonrpc_tcp_srv.NetServer.Sending.{
  dup_if_same_client, send_with_deadline, send_timeout_ms, SendResult, took, full,
}
use jsonrpc_tcp_srv.NetServer.Accounts.{records, unanswered}
use jsonrpc_tcp_srv.NetServer.System.{
  Step, accept, read, resume, answer, take_request, respond_one, new_system, run, run-IsBounded,
}
use jsonrpc_tcp_srv.NetServer.Queueing.{IsQueued}
use jsonrpc_tcp_srv.NetServer.Backpressure.{queue_framed_requests-IsQueued}
use jsonrpc_tcp_srv.NetServer.Deadline.{IsSentResult, send_with_deadline-IsSent}
use jsonrpc_tcp_srv.NetServer.Reuse.{dup_if_same_client-accept_client}

abbrev hello : Bytes
hello = b'{' ∷ b'}' ∷ []

abbrev some_steps : List Step
some_steps =
    accept 5 (some (pos 4000, "10.0.0.2"))
    ∷ read 5 (received hello ∷ [])
    ∷ take_request
    ∷ answer 0 hello
    ∷ respond_one (record {
      alive = true;
      dup_fd = some 9;
      start = 70000;
      sends = took 2 ∷ [];
      finish = 70003;
      now = 70003;
    })
    ∷ resume
    ∷ []

run-IsBounded_example :
    let s = run new_system some_steps in
    (records 1 s.server.client_info_chain ≡ 0)
    ⊎ ((unanswered 1 s.held s.server ≤ max_pending_per_conn)
        × (((pending_of s.server 1).paused ≡ false) ⊎ (128 < unanswered 1 s.held s.server)))
run-IsBounded_example = run-IsBounded some_steps 1

abbrev two_ready : Framer
two_ready = record {
  buf = [];
  ready = hello ∷ hello ∷ [];
  max_msg = 100;
  scan = 0;
  start = 0;
  depth = 0;
  in_string = false;
  escape = false;
  error = false;
}

abbrev live_chain : List NetDataObj → Chain NetDataObj
live_chain items = record {
  items = items;
  chain_size = length items;
  chain_peak_size = 1;
  ident_generator = 3;
  init_flag = true;
  attached = true;
  disable_autoremove = false;
}

abbrev client : NetDataObj
client = record {
  ident = 2;
  sock_descriptor = 5;
  port = pos 4000;
  ip = "10.0.0.2";
  cltid = minus_one;
  data_buffer = [];
}

-- One connection, with 255 unanswered requests.
abbrev one_client : NetServer
one_client = record {
  framers = (5, two_ready) ∷ [];
  pending =
      (2, record { count = 255; paused = false; dead = false; wait_ms = 0; window_start_ms = 0 })
      ∷ [];
  paused_fds = [];
  master_set = 5 ∷ [];
  max_sd = 5;
  json_socket = true;
  end_server = false;
  request_chain = live_chain [];
  response_chain = live_chain [];
  client_info_chain = live_chain (client ∷ []);
  trace = [];
}

queue_framed_requests-IsQueued_example :
    let (paused, m') = queue_framed_requests one_client 5 in
    IsQueued one_client 5 2 1
      (hello ∷ hello ∷ [])
      (length (take 1 (hello ∷ hello ∷ [])), paused, m')
unfolding get_client_info chain_get_by_ident connection_dead dead_of pending_of
queue_framed_requests-IsQueued_example =
    queue_framed_requests-IsQueued one_client 5 two_ready "10.0.0.2" (pos 4000) 2 1 refl
      (λ e. ground arith) refl refl refl refl

dup_if_same_client-accept_client_example :
    let m' = accept_client (close_connection one_client 5) 5 none in
    ((info : String × ℤ × ℕ) × (get_client_info m' 5 ≡ some info) × (2 < info.2))
    × (dup_if_same_client m' 5 (pos 2) true (some 9) ≡ none)
unfolding get_client_info chain_get_by_ident
dup_if_same_client-accept_client_example =
    dup_if_same_client-accept_client one_client 5 "10.0.0.2" (pos 4000) 2 none true (some 9)
      (record { live = refl; attached = refl; numbered = (omega arith, tt) }) (omega arith) refl

abbrev prompt_poll : ℕ → Bool × ℕ
prompt_poll timeout = (true, timeout)

abbrev slow : List SendResult
slow = took 1 ∷ full 500 prompt_poll ∷ full 1200 prompt_poll ∷ []

send_with_deadline-IsSent_example :
    IsSentResult (0 + send_timeout_ms) hello slow (send_with_deadline 0 hello slow).1
send_with_deadline-IsSent_example = send_with_deadline-IsSent 0 hello slow
