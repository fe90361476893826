-- ===== src/EvntMgr/Tests.antt =====
-- The event manager's properties at concrete inputs.
use jsonrpc_tcp_srv.Prelude.{
  ℕ, ◌<◌, true, false, not, List, [], ◌∷◌, ◌++◌, none, some, any, All, keep_if, map, ℤ, pos,
  minus_one, ◌≡◌, ◌⊎◌, refl, arith,
}
use jsonrpc_tcp_srv.EvntMgr.{
  EventEntry, EvntMgr, Round, new_evnt_mgr, is_duplicate, register_event_subscription,
  unregister_event_subscription, process_thread, receive_events,
}
use jsonrpc_tcp_srv.EvntMgr.Subscriptions.{
  Call, register, unregister, count, calls, IsTidyMgr, calls-IsTidyMgr,
}
use jsonrpc_tcp_srv.EvntMgr.Tokens.{register_event_subscription_lem}
use jsonrpc_tcp_srv.EvntMgr.Queues.{
  newest, process_events, processed, process_thread-process_events,
}
use jsonrpc_tcp_srv.EvntMgr.Failures.{update_rounds, is_expired, tokens, update_rounds-is_expired}

abbrev entry : ℤ → EventEntry
entry num = record {
  clt_token = pos 3;
  port_num = pos 4000;
  event_num = num;
  srv_token = 1;
  sock_descr = pos 9;
  sock_id = pos 1;
  ip = "127.0.0.1";
  delete_flag = false;
  fail_count = 0;
  first_fail_ms = 0;
}

abbrev one_subscriber : EvntMgr
one_subscriber = record {
  ack_token = 1;
  event_list = entry (pos 2) ∷ [];
  notify_queue = [];
  process_queue = [];
  notifying = [];
  sending = none;
  subscribers = 0 ∷ [];
  woken = 0;
}

abbrev failing : ℕ → Round
failing now = record { failed = 1 ∷ []; delivered = []; now = now }

abbrev six_rounds : List Round
six_rounds =
    failing 0 ∷ failing 20000 ∷ failing 40000 ∷ failing 50000 ∷ failing 59999 ∷ failing 60000 ∷ []

update_rounds-is_expired_example :
    tokens (update_rounds one_subscriber six_rounds).event_list
    ≡ keep_if (λ t. not (is_expired t [] six_rounds)) (1 ∷ [])
update_rounds-is_expired_example =
    update_rounds-is_expired one_subscriber six_rounds ((refl, refl), tt)

abbrev some_calls : List Call
some_calls =
    register (entry (pos 2))
    ∷ register (entry minus_one)
    ∷ unregister (pos 1)
    ∷ count (failing 5)
    ∷ []

calls-IsTidyMgr_example : IsTidyMgr (calls new_evnt_mgr some_calls)
calls-IsTidyMgr_example = calls-IsTidyMgr some_calls

one_subscriber-IsTidyMgr : IsTidyMgr one_subscriber
one_subscriber-IsTidyMgr = (omega arith, refl, omega arith)

register_event_subscription_lem_example :
    let e = entry minus_one in
    let (r, m') = register_event_subscription one_subscriber e in
    ((any (is_duplicate e) one_subscriber.event_list ≡ true) × (r ≡ none) × (m' ≡ one_subscriber))
    ⊎ ((any (is_duplicate e) one_subscriber.event_list ≡ false)
        × (t : ℕ) × (r ≡ some t)
        × All (λ x. x.srv_token < t) one_subscriber.event_list
        × (register_event_subscription m' e ≡ (none, m'))
        × ((unregister_event_subscription m' (pos t)).0 ≡ true)
        × ((unregister_event_subscription m' (pos t)).1.event_list ≡ one_subscriber.event_list))
register_event_subscription_lem_example =
    register_event_subscription_lem one_subscriber (entry minus_one) one_subscriber-IsTidyMgr

abbrev one_event : List (ℤ × ℤ × ℤ × ℤ)
one_event = (pos 2, pos 0, pos 3, pos 0) ∷ []

process_thread-process_events_example :
    let (calls, m') = process_thread (process_events one_subscriber one_event) in
    (calls ≡ receive_events (0 ∷ []) (newest ([] ++ map processed one_event)))
    × (m'.process_queue ≡ [])
process_thread-process_events_example =
    process_thread-process_events one_subscriber one_event (omega arith)
