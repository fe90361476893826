-- ===== src/NetServer/Sending.antt =====
-- lib/lib-jsonrpc-tcp ADNetServer.cpp: the responses and the response thread. The results of the
-- system calls are arguments: `alive` of `getpeername`, `dup_fd` of `fcntl`, `now` of the monotonic
-- clock in milliseconds, and the results of `send` and `poll` in their order.
use jsonrpc_tcp_srv.Prelude.{
  ℕ, zero, suc, ◌+◌, ◌-◌, Bool, true, false, not, List, [], ◌∷◌, ◌++◌, Option, none, some, ltb,
  ◌==◌, if◌then◌else◌, take, drop, ℤ, pos, negsuc, minus_one, lookup, insert,
}
use jsonrpc_tcp_srv.Framer.{Bytes}
use jsonrpc_tcp_srv.Chain.{chain_put, chain_get}
use jsonrpc_tcp_srv.NetServer.{
  NetServer, NetDataObj, ConnPending, emit, close_fd, shutdown_fd, send_bytes, wake_listener,
  wake_responder, get_client_info, connection_dead, pending_of, response_done, send_wait_budget_ms,
  send_wait_window_ms,
}

abbrev pub send_timeout_ms : ℕ
send_timeout_ms = 1000

-- The result is false for the return code -1.
unfoldable pub schedule_response : NetServer → ℕ → ℤ → Bytes → Bool × NetServer
schedule_response m fd cltid buf =
    let (put, c) = chain_put m.response_chain (record {
      ident = 0;
      sock_descriptor = fd;
      port = minus_one;
      ip = "";
      cltid = cltid;
      data_buffer = buf;
    }) in
    if put then (true, emit wake_responder (record m { response_chain = c })) else (false, m)

-- A private descriptor of the connection, or `none`.
unfoldable pub dup_if_same_client : NetServer → ℕ → ℤ → Bool → Option ℕ → Option ℕ
dup_if_same_client m fd (negsuc _) alive dup_fd = if alive then dup_fd else none
dup_if_same_client m fd (pos cltid) alive dup_fd =
    if connection_dead m (pos cltid) then none else elim (get_client_info m fd) [
      | none ↦ none
      | some (ip, port, id) ↦ if id == cltid then dup_fd else none
    ]

-- What `send` returned. After a full socket buffer also the clock, and `poll`: for a timeout, whether it went
-- well and how long it waited.
pub data SendResult : Type 0 where
  took : ℕ → SendResult
  interrupted failed : SendResult
  full : ℕ → (ℕ → Bool × ℕ) → SendResult

pub data SendCode : Type 0 where
  sent_all error timed_out : SendCode

-- The loop of `send_with_deadline`: how long it waited in `poll`, and its code and what went out, or `none`
-- while it has not returned. `took n` is a positive result, at most the number of bytes that remain.
unfoldable pub send_loop : ℕ → Bytes → List SendResult → ℕ × Option (SendCode × Bytes)
send_loop deadline [] rs = (0, some (sent_all, []))
send_loop deadline (b ∷ bs) [] = (0, none)
send_loop deadline (b ∷ bs) (took n ∷ rs) =
    let (waited, r) = send_loop deadline (drop n (b ∷ bs)) rs in
    (waited, elim r [ none ↦ none | some (code, out) ↦ some (code, take n (b ∷ bs) ++ out) ])
send_loop deadline (b ∷ bs) (interrupted ∷ rs) = send_loop deadline (b ∷ bs) rs
send_loop deadline (b ∷ bs) (failed ∷ rs) = (0, some (error, []))
send_loop deadline (b ∷ bs) (full now poll ∷ rs) =
    let left = deadline - now in
    let (well, waited) = poll left in
    let (more, r) = send_loop deadline (b ∷ bs) rs in
    if left == 0
    then (0, some (timed_out, []))
    else if not well
    then (waited, some (error, []))
    else (waited + more, r)

-- `clock_gettime` gives `start`.
unfoldable pub send_with_deadline : ℕ → Bytes → List SendResult → ℕ × Option (SendCode × Bytes)
unfolding send_loop
send_with_deadline start buf rs = send_loop (start + send_timeout_ms) buf rs

-- `*waited_ms`, with the clock at the start and behind the loop.
unfoldable pub waited_ms_of : ℕ → ℕ → SendCode → ℕ
waited_ms_of start finish sent_all = finish - start
waited_ms_of start finish _ = 0

-- The wait of one response is added to its connection's window.
unfoldable pub waited_entry : ConnPending → ℕ → ℕ → ConnPending
waited_entry p waited_ms now =
    if ltb send_wait_window_ms (now - p.window_start_ms)
    then record p { window_start_ms = now; wait_ms = waited_ms }
    else record p { wait_ms = p.wait_ms + waited_ms }

unfoldable pub over_budget_of : NetServer → ℕ → ℕ → ℕ → Option ConnPending → Bool × NetServer
unfolding waited_entry
over_budget_of m cltid waited_ms now none = (false, m)
over_budget_of m cltid waited_ms now (some p) =
    let p' = waited_entry p waited_ms now in
    (ltb send_wait_budget_ms p'.wait_ms, record m { pending = insert cltid p' m.pending })

unfoldable pub over_send_wait_budget : NetServer → ℤ → ℕ → ℕ → Bool × NetServer
unfolding over_budget_of
over_send_wait_budget m (negsuc _) waited_ms now = (false, m)
over_send_wait_budget m (pos cltid) zero now = (false, m)
over_send_wait_budget m (pos cltid) (suc w) now =
    over_budget_of m cltid (suc w) now (lookup cltid m.pending)

-- The connection is marked dead; a paused one is woken, so that the listen thread sees its end.
unfoldable pub drop_connection : NetServer → ℕ → ℤ → NetServer
drop_connection m dup_fd (negsuc _) = emit (shutdown_fd dup_fd) m
drop_connection m dup_fd (pos cltid) =
    let p = pending_of m cltid in
    let m' =
      emit (shutdown_fd dup_fd) (record m {
        pending = insert cltid (record p { dead = true; paused = false }) m.pending;
      }) in
    if p.paused then emit wake_listener m' else m'

-- A response that has a descriptor: what `send_with_deadline` returned and how long it waited. The
-- wait is accounted only after a complete send.
unfoldable pub send_response : NetServer → ℕ → NetDataObj → SendCode × Bytes → ℕ → ℕ → NetServer
send_response m fd obj (sent_all, out) waited_ms now =
    let (over, m') = over_send_wait_budget (emit (send_bytes fd out) m) obj.cltid waited_ms now in
    emit (close_fd fd) (if over then drop_connection m' fd obj.cltid else m')
send_response m fd obj (_, out) waited_ms now =
    emit (close_fd fd) (drop_connection (emit (send_bytes fd out) m) fd obj.cltid)

-- What the system calls answer for one response: `start` and `finish` are the clock at the start and at the
-- end of `send_with_deadline`, `now` is it in `over_send_wait_budget`.
pub record SendEnv : Type 0 where
  pub alive : Bool
  pub dup_fd : Option ℕ
  pub start : ℕ
  pub sends : List SendResult
  pub finish : ℕ
  pub now : ℕ

-- `none` while `send_with_deadline` has not returned.
unfoldable pub respond_to : NetServer → NetDataObj → SendEnv → Option NetServer
unfolding send_response send_with_deadline waited_ms_of
respond_to m obj env =
    elim (dup_if_same_client m obj.sock_descriptor obj.cltid env.alive env.dup_fd) [
      | none ↦ some (response_done m obj.cltid)
      | some fd ↦ elim (send_with_deadline env.start obj.data_buffer env.sends).1 [
        | none ↦ none
        | some (code, out) ↦ some (
            response_done
              (send_response m fd obj (code, out) (waited_ms_of env.start env.finish code) env.now)
              obj.cltid)
      ]
    ]

abbrev pub or_same : NetServer → Option NetServer → NetServer
or_same m none = m
or_same m (some m') = m'

-- One pass of the response thread's loop; a pass that has not ended has changed nothing yet.
unfoldable pub respond : NetServer → SendEnv → NetServer
unfolding respond_to
respond m env =
    let (obj, c) = chain_get m.response_chain in
    let m' = record m { response_chain = c } in
    elim obj [ none ↦ m' | some o ↦ or_same m (respond_to m' o env) ]
