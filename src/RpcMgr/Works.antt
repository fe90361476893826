-- ===== src/RpcMgr/Works.antt =====
-- lib/lib-jsonrpc-tcp/src/ADJsonRpcMgr.cpp process_*: the work of a request keeps the manager sound.
use jsonrpc_tcp_srv.Prelude.{
  ℕ, ◌+◌, Bool, true, false, List, [], ◌∷◌, ℤ, pos, ◌==◌, All, map, Bool-cases, Option-cases, ◌≡◌,
  subst, inl, inr, arith,
}
use jsonrpc_tcp_srv.TaskWorker.{
  TaskWorker, WorkCmdAfterDone, preserve, delete, push_task, get_task_status, reset_round,
  reset_wait_ms,
}
use jsonrpc_tcp_srv.TaskWorker.Calls.{IsWell, push_task-IsWell, any_status-IsWell}
use jsonrpc_tcp_srv.TaskWorker.Reset.{reset_round-IsWell}
use jsonrpc_tcp_srv.EvntMgr.{
  EvntMgr, notify_event, process_event, register_event_subscription, unregister_event_subscription,
}
use jsonrpc_tcp_srv.EvntMgr.Subscriptions.{
  IsTidyMgr, register-IsTidyMgr, unregister-IsTidyMgr, notify_event-IsTidyMgr,
  process_event-IsTidyMgr,
}
use jsonrpc_tcp_srv.RpcMgr.{
  RpcmgrCmd, get_task_sts, get_rpc_srv_version, trigger_datasave, get_settings_sts,
  shutdown_service, reset_task_sts, get_ready_sts, get_debug_log, set_debug_log,
  trigger_factory_store, trigger_factory_restore, event_subscribe, event_unsubscribe, event_notify,
  event_process, trigger_run, get_devop_state, set_devop_state, get_mw_byte, set_mw_byte,
  get_mw_word, set_mw_word, get_mw_dword, set_mw_dword, code_of_cmd, Packet, task_sts_packet,
  RequestObj, RpcMgr, RpcHandler, get_cmn_rpc_handler, set_rpc_debug_log_flag, EventPacket,
}
use jsonrpc_tcp_srv.RpcMgr.Worker.{WorkerStep, worker_steps}
use jsonrpc_tcp_srv.RpcMgr.Packets.{is_act_read, event_of, answered, flag_of, task_id_of}
use jsonrpc_tcp_srv.RpcMgr.Events.{
  on_event, process_event_subscribe, process_event_unsubscribe, process_event_notify,
  process_event_process, new_event_entry,
}
use jsonrpc_tcp_srv.RpcMgr.Process.{
  my_process_work, process_get_task_status, process_rpc_server_version, process_trigger,
  process_shutdown_service, process_reset_task_sts, process_get_ready_status,
  process_get_debug_logging, process_set_debug_logging, debug_logging_set, process_work_cmn_rpc,
  reset_looks,
}
use jsonrpc_tcp_srv.RpcMgr.Soundness.{IsFinal, IsSound, worker_steps-IsSound, run_handler-IsSound}

module _ {J V S : Type 0} where
  with_worker :
      (m : RpcMgr J V S) (w : TaskWorker (Packet V))
      → IsSound m
      → IsWell w
      → IsSound (record m { task_worker = w })
  with_worker m w h k = record { well = k; tidy = h.tidy; final = h.final }

  with_events :
      (m : RpcMgr J V S) (e : EvntMgr)
      → IsSound m
      → IsTidyMgr e
      → IsSound (record m { event_mgr = e })
  with_events m e h k = record { well = h.well; tidy = k; final = h.final }

  trigger-IsSound :
      (cmd : RpcmgrCmd) (flag : WorkCmdAfterDone) (m : RpcMgr J V S) (r : RequestObj J V)
      → IsSound m
      → IsSound (process_trigger cmd flag m r).2
  unfolding process_trigger answered
  trigger-IsSound cmd flag m r h =
      let packet : Packet V = task_sts_packet (pos 0) "" in
      let (id, w) = push_task m.task_worker (code_of_cmd cmd) packet flag in
      let pushed =
        with_worker m w h (push_task-IsWell m.task_worker (code_of_cmd cmd) packet flag h.well) in
      elim (Option-cases id) [
        | inl e ↦ rw (e, process_trigger) pushed
        | inr (n, e) ↦ rw (e, process_trigger) pushed
      ]

  looks-IsSound :
      (looks : List (List WorkerStep × ℕ)) (start : ℕ) (m : RpcMgr J V S)
      → IsSound m
      → IsSound (reset_looks looks start m).1
  unfolding reset_looks
  looks-IsSound [] start m h =
      with_worker m (reset_round m.task_worker start (start + reset_wait_ms)).1 h
        (reset_round-IsWell m.task_worker start (start + reset_wait_ms) h.well)
  looks-IsSound ((steps, now) ∷ looks) start m h =
      elim (Option-cases (reset_round m.task_worker start now).0) [
        | inl e ↦
            rw (e, reset_looks)
              (looks-IsSound looks start (worker_steps steps m) (worker_steps-IsSound steps m h))
        | inr (k, e) ↦
            rw (e, reset_looks)
              (with_worker m (reset_round m.task_worker start now).1 h
                (reset_round-IsWell m.task_worker start now h.well))
      ]

  flagged-IsFinal :
      (flag : Bool) (hs : List (RpcHandler J V S))
      → All IsFinal hs
      → let flagged : RpcHandler J V S → RpcHandler J V S = λ h. record h { logmsg = flag } in
        All IsFinal (map flagged hs)
  flagged-IsFinal flag [] f = f
  flagged-IsFinal flag (x ∷ hs) f = (f.0, flagged-IsFinal flag hs f.1)

  flag-IsSound :
      (flag : Bool) (m : RpcMgr J V S) (r : RequestObj J V)
      → IsSound m
      → IsSound (debug_logging_set flag m r).2
  unfolding debug_logging_set answered set_rpc_debug_log_flag
  flag-IsSound flag m r h = record {
    well = h.well;
    tidy = h.tidy;
    final = flagged-IsFinal flag m.rpclist h.final;
  }

  set_debug-IsSound :
      (m : RpcMgr J V S) (r : RequestObj J V)
      → IsSound m
      → IsSound (process_set_debug_logging m r).2
  unfolding process_set_debug_logging answered
  set_debug-IsSound m r h = elim (Bool-cases (flag_of r.req.data_ref == 0)) [
    | inl e ↦ rw e (flag-IsSound false m r h)
    | inr e ↦ elim (Bool-cases (flag_of r.req.data_ref == 1)) [
      | inl e' ↦ rw (e, e') (flag-IsSound true m r h)
      | inr e' ↦ rw (e, e') h
    ]
  ]

  event-IsSound :
      (work : EventPacket → ℤ × RequestObj J V × RpcMgr J V S) (m : RpcMgr J V S)
      (r : RequestObj J V)
      → IsSound m
      → ((p : EventPacket) → IsSound (work p).2)
      → IsSound (on_event work m r).2
  unfolding on_event
  event-IsSound work m r h k = elim (Option-cases (event_of r.req.data_ref)) [
    | inl e ↦ rw (e, on_event) h
    | inr (p, e) ↦ rw (e, on_event) (k p)
  ]

  subscribe-IsSound :
      (m : RpcMgr J V S) (r : RequestObj J V) → IsSound m → IsSound (process_event_subscribe m r).2
  unfolding process_event_subscribe answered
  subscribe-IsSound m r h = event-IsSound _ m r h λ p.
      let (token, e) = register_event_subscription m.event_mgr (new_event_entry p) in
      let registered =
        with_events m e h (register-IsTidyMgr m.event_mgr (new_event_entry p) h.tidy) in
      elim (Option-cases token) [ inl e ↦ rw e registered | inr (t, e) ↦ rw e registered ]

  unsubscribe-IsSound :
      (m : RpcMgr J V S) (r : RequestObj J V)
      → IsSound m
      → IsSound (process_event_unsubscribe m r).2
  unfolding process_event_unsubscribe answered
  unsubscribe-IsSound m r h = event-IsSound _ m r h λ p.
      with_events m (unregister_event_subscription m.event_mgr p.srv_token).1 h
        (unregister-IsTidyMgr m.event_mgr p.srv_token h.tidy)

  notify-IsSound :
      (m : RpcMgr J V S) (r : RequestObj J V) → IsSound m → IsSound (process_event_notify m r).2
  unfolding process_event_notify answered
  notify-IsSound m r h = event-IsSound _ m r h λ p.
      with_events m (notify_event m.event_mgr p.event_num p.event_arg p.event_arg2) h
        (notify_event-IsTidyMgr m.event_mgr p.event_num p.event_arg p.event_arg2 h.tidy)

  process-IsSound :
      (m : RpcMgr J V S) (r : RequestObj J V) → IsSound m → IsSound (process_event_process m r).2
  unfolding process_event_process answered
  process-IsSound m r h = event-IsSound _ m r h λ p.
      with_events m (process_event m.event_mgr p.event_num p.event_arg p.clt_token p.event_arg2) h (
        process_event-IsTidyMgr m.event_mgr p.event_num p.event_arg p.clt_token p.event_arg2 h.tidy)

  shutdown-IsSound :
      (m : RpcMgr J V S) (r : RequestObj J V) → IsSound m → IsSound (process_shutdown_service m r).2
  unfolding process_shutdown_service answered
  shutdown-IsSound m r h = elim (Bool-cases m.shutdown_support) [
    | inl e ↦ elim (Bool-cases (is_act_read r.req.action)) [
      | inl e' ↦ let is : m ≡ (process_shutdown_service m r).2 = ground arith in subst IsSound is h
      | inr e' ↦
          let is : (process_trigger shutdown_service delete m r).2
              ≡ (process_shutdown_service m r).2 =
            ground arith in
          subst IsSound is (trigger-IsSound shutdown_service delete m r h)
    ]
    | inr e ↦ let is : m ≡ (process_shutdown_service m r).2 = ground arith in subst IsSound is h
  ]

  version-IsSound :
      (m : RpcMgr J V S) (r : RequestObj J V)
      → IsSound m
      → IsSound (process_rpc_server_version m r).2
  unfolding process_rpc_server_version answered
  version-IsSound m r h = elim (Bool-cases (is_act_read r.req.action)) [
    | inl e ↦ rw e h
    | inr e ↦ rw e h
  ]

  cmn-IsSound :
      (m : RpcMgr J V S) (r : RequestObj J V) → IsSound m → IsSound (process_work_cmn_rpc m r).2
  unfolding process_work_cmn_rpc
  cmn-IsSound m r h = elim (Option-cases (get_cmn_rpc_handler m)) [
    | inl e ↦ rw (e, process_work_cmn_rpc) h
    | inr (k, e) ↦
        rw (e, process_work_cmn_rpc)
          (run_handler-IsSound (k.handle_work r r.comm.cmd_index m.service) m h)
  ]

  pub my_process_work-IsSound :
      (looks : List (List WorkerStep × ℕ)) (start : ℕ) (cmd : RpcmgrCmd) (m : RpcMgr J V S)
      (r : RequestObj J V)
      → IsSound m
      → IsSound (my_process_work looks start cmd m r).2
  unfolding my_process_work process_get_task_status process_reset_task_sts process_get_ready_status
      process_get_debug_logging answered
  my_process_work-IsSound looks start get_task_sts m r h =
      with_worker m (get_task_status m.task_worker (task_id_of r.req.data_ref)).1 h
        (any_status-IsWell m.task_worker (task_id_of r.req.data_ref) h.well)
  my_process_work-IsSound looks start get_rpc_srv_version m r h = version-IsSound m r h
  my_process_work-IsSound looks start trigger_datasave m r h =
      trigger-IsSound trigger_datasave preserve m r h
  my_process_work-IsSound looks start get_settings_sts m r h = cmn-IsSound m r h
  my_process_work-IsSound looks start shutdown_service m r h = shutdown-IsSound m r h
  my_process_work-IsSound looks start reset_task_sts m r h = looks-IsSound looks start m h
  my_process_work-IsSound looks start get_ready_sts m r h = h
  my_process_work-IsSound looks start get_debug_log m r h = h
  my_process_work-IsSound looks start set_debug_log m r h = set_debug-IsSound m r h
  my_process_work-IsSound looks start trigger_factory_store m r h =
      trigger-IsSound trigger_factory_store preserve m r h
  my_process_work-IsSound looks start trigger_factory_restore m r h =
      trigger-IsSound trigger_factory_restore preserve m r h
  my_process_work-IsSound looks start event_subscribe m r h = subscribe-IsSound m r h
  my_process_work-IsSound looks start event_unsubscribe m r h = unsubscribe-IsSound m r h
  my_process_work-IsSound looks start event_notify m r h = notify-IsSound m r h
  my_process_work-IsSound looks start event_process m r h = process-IsSound m r h
  my_process_work-IsSound looks start trigger_run m r h = trigger-IsSound trigger_run preserve m r h
  my_process_work-IsSound looks start get_devop_state m r h = cmn-IsSound m r h
  my_process_work-IsSound looks start set_devop_state m r h =
      trigger-IsSound set_devop_state preserve m r h
  my_process_work-IsSound looks start get_mw_byte m r h = cmn-IsSound m r h
  my_process_work-IsSound looks start set_mw_byte m r h = cmn-IsSound m r h
  my_process_work-IsSound looks start get_mw_word m r h = cmn-IsSound m r h
  my_process_work-IsSound looks start set_mw_word m r h = cmn-IsSound m r h
  my_process_work-IsSound looks start get_mw_dword m r h = cmn-IsSound m r h
  my_process_work-IsSound looks start set_mw_dword m r h = cmn-IsSound m r h
