-- ===== src/EvntMgr.antt =====
-- lib/lib-jsonrpc-tcp ADEvntMgr (.hpp, .cpp): event subscriptions of other servers, the queue of
-- events to send to them, and the queue of events that came in. `eventList` owns its entries and
-- holds each once, so that it is a list of values. Each section under `lock` is one step; the notify
-- thread's `pending` and the copied `targets` with their event are the fields `notifying` and
-- `sending`, so that the RPC thread's calls can come between its sections. The client that sends
-- an event (ADJsonRpcClient) and its stop flag are parameters.
pub mod Subscriptions
pub mod Tokens
pub mod Queues
pub mod Failures
mod Tests
use Prim.Native.String.{String}
use jsonrpc_tcp_srv.Prelude.{
  ℕ, ◌+◌, ◌-◌, Bool, true, false, not, ◌&&◌, ◌||◌, List, [], ◌∷◌, ◌++◌, Option, none, some, ltb,
  leb, ◌==◌, if◌then◌else◌, length, drop, any, keep_if, map, ℤ, pos, minus_one, ◌==ℤ◌,
}
use jsonrpc_tcp_srv.RpcResult.{RpcSrvResult, success, code_of}

pub record EventEntry : Type 0 where
  pub clt_token : ℤ
  pub port_num : ℤ
  pub event_num : ℤ
  pub srv_token : ℕ
  pub sock_descr : ℤ
  pub sock_id : ℤ
  pub ip : String
  pub delete_flag : Bool
  pub fail_count : ℕ
  pub first_fail_ms : ℕ

pub record EventProcEntry : Type 0 where
  pub event_num : ℤ
  pub event_arg : ℤ
  pub clt_token : ℤ
  pub event_arg2 : ℤ

abbrev pub max_failures : ℕ
max_failures = 5

abbrev pub fail_window_ms : ℕ
fail_window_ms = 60000

abbrev pub max_queued : ℕ
max_queued = 1024

-- `subscribers` are the consumers attached, by numbers; `woken` counts the wakeups of both threads.
pub record EvntMgr : Type 0 where
  pub ack_token : ℕ
  pub event_list : List EventEntry
  pub notify_queue : List EventProcEntry
  pub process_queue : List EventProcEntry
  pub notifying : List EventProcEntry
  pub sending : Option (EventProcEntry × List EventEntry)
  pub subscribers : List ℕ
  pub woken : ℕ

pub new_evnt_mgr : EvntMgr
new_evnt_mgr = record {
  ack_token = 0;
  event_list = [];
  notify_queue = [];
  process_queue = [];
  notifying = [];
  sending = none;
  subscribers = [];
  woken = 0;
}

pub attach_receiver : EvntMgr → ℕ → EvntMgr
attach_receiver m c = record m { subscribers = m.subscribers ++ c ∷ [] }

-- FindDuplicateEntry.
pub is_duplicate : EventEntry → EventEntry → Bool
is_duplicate mine e =
    if not (mine.clt_token ==ℤ e.clt_token)
    then false
    else if not (mine.port_num ==ℤ e.port_num)
    then false
    else if not (mine.event_num ==ℤ e.event_num)
    then false
    else true

-- FindEventEntry and RemoveEventEntry.
abbrev pub has_token : ℤ → EventEntry → Bool
has_token token e = token ==ℤ pos e.srv_token

-- The result is `*ack_token`, or `none` for the return code -1.
pub register_event_subscription : EvntMgr → EventEntry → Option ℕ × EvntMgr
register_event_subscription m event =
    let fresh = record event { fail_count = 0; first_fail_ms = 0; delete_flag = false } in
    if any (is_duplicate fresh) m.event_list then (none, m) else (
      some (m.ack_token + 1),
      record m {
        ack_token = m.ack_token + 1;
        event_list = m.event_list ++ record fresh { srv_token = m.ack_token + 1 } ∷ [];
      },
    )

pub unregister_event_subscription : EvntMgr → ℤ → Bool × EvntMgr
unregister_event_subscription m token =
    if any (has_token token) m.event_list
    then (true, record m { event_list = keep_if (λ e. not (has_token token e)) m.event_list })
    else (false, m)

-- A full queue drops its oldest event; the Boolean is `dropped`, which is logged.
pub push_bounded : List EventProcEntry → EventProcEntry → Bool × List EventProcEntry
push_bounded q e =
    if leb max_queued (length q) then (true, drop 1 q ++ e ∷ []) else (false, q ++ e ∷ [])

pub notify_event : EvntMgr → ℤ → ℤ → ℤ → EvntMgr
unfolding push_bounded
notify_event m event_num event_arg event_arg2 =
    let e : EventProcEntry = record {
      event_num = event_num;
      event_arg = event_arg;
      clt_token = pos 0;
      event_arg2 = event_arg2;
    } in
    record m { notify_queue = (push_bounded m.notify_queue e).1; woken = m.woken + 1 }

pub process_event : EvntMgr → ℤ → ℤ → ℤ → ℤ → EvntMgr
unfolding push_bounded
process_event m event_num event_arg clt_token event_arg2 =
    let e : EventProcEntry = record {
      event_num = event_num;
      event_arg = event_arg;
      clt_token = clt_token;
      event_arg2 = event_arg2;
    } in
    record m { process_queue = (push_bounded m.process_queue e).1; woken = m.woken + 1 }

-- `notify_subscribers` for each event of the process thread's `pending`: the calls of
-- `receive_events`.
pub receive_events : List ℕ → List EventProcEntry → List (ℕ × EventProcEntry)
receive_events cs [] = []
receive_events cs (e ∷ es) = map (λ c. (c, e)) cs ++ receive_events cs es

-- The callback of the process thread.
pub process_thread : EvntMgr → List (ℕ × EventProcEntry) × EvntMgr
unfolding receive_events
process_thread m = (receive_events m.subscribers m.process_queue, record m { process_queue = [] })

-- The callback of the notify thread, in its first section: `pending` is the whole queue.
pub notify_swap : EvntMgr → EvntMgr
notify_swap m = record m { notifying = m.notify_queue; notify_queue = [] }

abbrev pub is_target : EventProcEntry → EventEntry → Bool
is_target event e = (e.event_num ==ℤ minus_one) || (e.event_num ==ℤ event.event_num)

-- The next pending event with the copy of its subscribers.
notify_next_of : EvntMgr → List EventProcEntry → EvntMgr
notify_next_of m [] = m
notify_next_of m (event ∷ rest) = record m {
  notifying = rest;
  sending = some (event, keep_if (is_target event) m.event_list);
}

pub notify_next : EvntMgr → EvntMgr
unfolding notify_next_of
notify_next m = notify_next_of m m.notifying

abbrev pub has : ℕ → List ℕ → Bool
has token tokens = any (λ t. token == t) tokens

-- The deliveries of one event: the tokens that failed, those that succeeded, and the time.
pub record Round : Type 0 where
  pub failed : List ℕ
  pub delivered : List ℕ
  pub now : ℕ

-- The loop body of `update_failure_counts`; the time is monotonic.
pub count_failure : Round → EventEntry → EventEntry
count_failure r e =
    let first = if e.fail_count == 0 then r.now else e.first_fail_ms in
    if has e.srv_token r.delivered
    then record e { fail_count = 0 }
    else if has e.srv_token r.failed
    then record e {
      fail_count = e.fail_count + 1;
      first_fail_ms = first;
      delete_flag =
          if leb max_failures (e.fail_count + 1) && leb fail_window_ms (r.now - first)
          then true
          else e.delete_flag;
    }
    else e

-- The second pass is RemoveNonListenerEntry's.
pub update_failure_counts : EvntMgr → Round → EvntMgr
unfolding count_failure
update_failure_counts m r =
    if (length r.failed == 0) && (length r.delivered == 0) then m else record m {
      event_list = keep_if (λ e. not e.delete_flag) (map (count_failure r) m.event_list);
    }

-- `rpc_connect` answers true for 0, `event_process` is the call of RPCMGR_RPC_EVENT_PROCESS on the
-- open connection, and `stop_requested` is read before each delivery.
module _ (rpc_connect : String → ℤ → Bool)
    (event_process : EventEntry → EventProcEntry → RpcSrvResult)
    (stop_requested : EventEntry → Bool) where
  pub send_event : EventEntry → EventProcEntry → Bool
  send_event e event =
      if not (rpc_connect e.ip e.port_num)
      then false
      else code_of (event_process e event) == code_of success

  -- The loop over the targets, or `none` when the thread is to stop.
  deliver : List EventEntry → EventProcEntry → ℕ → Option Round
  unfolding send_event
  deliver [] event now = some (record { failed = []; delivered = []; now = now })
  deliver (e ∷ es) event now =
      let rest = deliver es event now in
      if stop_requested e then none else elim rest [
        | none ↦ none
        | some r ↦
            if send_event e event
            then some (record r { delivered = e.srv_token ∷ r.delivered })
            else some (record r { failed = e.srv_token ∷ r.failed })
      ]

  notify_deliver_of : EvntMgr → Option (EventProcEntry × List EventEntry) → ℕ → EvntMgr
  unfolding deliver update_failure_counts
  notify_deliver_of m none now = m
  notify_deliver_of m (some (event, targets)) now = elim (deliver targets event now) [
    | none ↦ record m { sending = none; notifying = [] }
    | some r ↦ record (update_failure_counts m r) { sending = none }
  ]

  -- The deliveries of the event being sent, and the failure counts after them.
  pub notify_deliver : EvntMgr → ℕ → EvntMgr
  unfolding notify_deliver_of
  notify_deliver m now = notify_deliver_of m m.sending now
