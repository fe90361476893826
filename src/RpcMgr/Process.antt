-- ===== src/RpcMgr/Process.antt =====
-- lib/lib-jsonrpc-tcp/src/ADJsonRpcMgr.cpp process_*: the work of a request, on its packet.
use jsonrpc_tcp_srv.Prelude.{
  ℕ, ◌+◌, Bool, true, false, List, [], ◌∷◌, none, some, if◌then◌else◌, ◌==◌, ℤ, pos, minus_one,
}
use jsonrpc_tcp_srv.RpcResult.{
  RpcSrvResult, success, fail, in_prog, busy, action_not_allowed, arg_error, feature_unsupported,
  convert_server_result_to_string,
}
use jsonrpc_tcp_srv.TaskWorker.{
  WorkCmdAfterDone, preserve, delete, push_task, get_task_status, reset_round, reset_wait_ms,
}
use jsonrpc_tcp_srv.RpcMgr.{
  RpcmgrCmd, get_task_sts, get_rpc_srv_version, trigger_datasave, get_settings_sts,
  shutdown_service, reset_task_sts, get_ready_sts, get_debug_log, set_debug_log,
  trigger_factory_store, trigger_factory_restore, event_subscribe, event_unsubscribe, event_notify,
  event_process, trigger_run, get_devop_state, set_devop_state, get_mw_byte, set_mw_byte,
  get_mw_word, set_mw_word, get_mw_dword, set_mw_dword, code_of_cmd, code_of_ready, task_sts_packet,
  integer_packet, ready_sts_packet, debug_log_packet, RequestObj, RpcMgr, get_cmn_rpc_handler,
  set_rpc_debug_log_flag,
}
use jsonrpc_tcp_srv.RpcMgr.Worker.{run_handler, WorkerStep, worker_steps}
use jsonrpc_tcp_srv.RpcMgr.Packets.{task_id_of, with_task_id, flag_of, is_act_read, answered}
use jsonrpc_tcp_srv.RpcMgr.Events.{
  process_event_subscribe, process_event_unsubscribe, process_event_notify, process_event_process,
}

module _ {J V S : Type 0} where
  unfoldable pub process_get_task_status :
      RpcMgr J V S → RequestObj J V → ℤ × RequestObj J V × RpcMgr J V S
  unfolding answered task_id_of
  process_get_task_status m r =
      let id = task_id_of r.req.data_ref in
      let (sts, w) = get_task_status m.task_worker id in
      answered (record m { task_worker = w }) r success
        (task_sts_packet id (convert_server_result_to_string sts))

  unfoldable pub process_rpc_server_version :
      RpcMgr J V S → RequestObj J V → ℤ × RequestObj J V × RpcMgr J V S
  unfolding answered
  process_rpc_server_version m r =
      if is_act_read r.req.action
      then answered m r success (integer_packet m.svn_version)
      else answered m r action_not_allowed r.req.data_ref

  -- process_trigger_datasave, _trigger_factory_store, _trigger_factory_restore, _trigger_run and
  -- _set_devop_state; the work data is a new packet.
  unfoldable pub process_trigger :
      RpcmgrCmd
      → WorkCmdAfterDone
      → RpcMgr J V S
      → RequestObj J V
      → ℤ × RequestObj J V × RpcMgr J V S
  unfolding answered with_task_id code_of_cmd
  process_trigger cmd done_flag m r =
      let (id, w) =
        push_task m.task_worker (code_of_cmd cmd) (task_sts_packet (pos 0) "") done_flag in
      let m' = record m { task_worker = w } in
      elim id [
        | some n ↦ answered m' r in_prog (with_task_id r.req.data_ref (pos n))
        | none ↦ answered m' r fail r.req.data_ref
      ]

  unfoldable pub process_shutdown_service :
      RpcMgr J V S → RequestObj J V → ℤ × RequestObj J V × RpcMgr J V S
  unfolding answered process_trigger
  process_shutdown_service m r =
      if m.shutdown_support
      then if is_act_read r.req.action
        then answered m r action_not_allowed r.req.data_ref
        else process_trigger shutdown_service delete m r
      else answered m r feature_unsupported r.req.data_ref

  -- The looks of `reset_task_id_and_chain`: each with its time and what the worker's thread does in the
  -- sleep behind it. The last look is made when `reset_wait_ms` have passed, and always answers.
  unfoldable pub reset_looks :
      List (List WorkerStep × ℕ) → ℕ → RpcMgr J V S → RpcSrvResult × RpcMgr J V S
  reset_looks [] start m =
      let (result, w) = reset_round m.task_worker start (start + reset_wait_ms) in
      (elim result [ some r ↦ r | none ↦ busy ], record m { task_worker = w })
  reset_looks ((steps, now) ∷ looks) start m =
      let (result, w) = reset_round m.task_worker start now in
      let rest = reset_looks looks start (worker_steps steps m) in
      elim result [ some r ↦ (r, record m { task_worker = w }) | none ↦ rest ]

  unfoldable pub process_reset_task_sts :
      List (List WorkerStep × ℕ)
      → ℕ
      → RpcMgr J V S
      → RequestObj J V
      → ℤ × RequestObj J V × RpcMgr J V S
  unfolding answered reset_looks
  process_reset_task_sts looks start m r =
      let (result, m') = reset_looks looks start m in answered m' r result r.req.data_ref

  unfoldable pub process_get_ready_status :
      RpcMgr J V S → RequestObj J V → ℤ × RequestObj J V × RpcMgr J V S
  unfolding answered code_of_ready
  process_get_ready_status m r =
      answered m r success (ready_sts_packet (code_of_ready m.service_ready_flag))

  unfoldable pub process_get_debug_logging :
      RpcMgr J V S → RequestObj J V → ℤ × RequestObj J V × RpcMgr J V S
  unfolding answered
  process_get_debug_logging m r =
      answered m r success (debug_log_packet (if m.service_debug_flag then 1 else 0))

  -- The flag, its copy in every handler, and success.
  unfoldable pub debug_logging_set :
      Bool → RpcMgr J V S → RequestObj J V → ℤ × RequestObj J V × RpcMgr J V S
  unfolding answered set_rpc_debug_log_flag
  debug_logging_set flag m r =
      answered (set_rpc_debug_log_flag (record m { service_debug_flag = flag }) flag) r success
        r.req.data_ref

  unfoldable pub process_set_debug_logging :
      RpcMgr J V S → RequestObj J V → ℤ × RequestObj J V × RpcMgr J V S
  unfolding answered debug_logging_set flag_of
  process_set_debug_logging m r =
      if flag_of r.req.data_ref == 0
      then debug_logging_set false m r
      else if flag_of r.req.data_ref == 1
      then debug_logging_set true m r
      else answered m r arg_error r.req.data_ref

  -- ProcessWorkCmnRpc.
  unfoldable pub process_work_cmn_rpc :
      RpcMgr J V S → RequestObj J V → ℤ × RequestObj J V × RpcMgr J V S
  unfolding get_cmn_rpc_handler
  process_work_cmn_rpc m r = elim (get_cmn_rpc_handler m) [
    | none ↦ (minus_one, r, m)
    | some h ↦ run_handler m (h.handle_work r r.comm.cmd_index m.service)
  ]

  -- `looks` and `start` are those of `reset_task_id_and_chain`.
  unfoldable pub my_process_work :
      List (List WorkerStep × ℕ)
      → ℕ
      → RpcmgrCmd
      → RpcMgr J V S
      → RequestObj J V
      → ℤ × RequestObj J V × RpcMgr J V S
  unfolding process_get_task_status process_rpc_server_version process_trigger
      process_shutdown_service process_reset_task_sts process_get_ready_status
      process_get_debug_logging process_set_debug_logging process_event_subscribe
      process_event_unsubscribe process_event_notify process_event_process process_work_cmn_rpc
  my_process_work looks start get_task_sts m r = process_get_task_status m r
  my_process_work looks start get_rpc_srv_version m r = process_rpc_server_version m r
  my_process_work looks start trigger_datasave m r = process_trigger trigger_datasave preserve m r
  my_process_work looks start get_settings_sts m r = process_work_cmn_rpc m r
  my_process_work looks start shutdown_service m r = process_shutdown_service m r
  my_process_work looks start reset_task_sts m r = process_reset_task_sts looks start m r
  my_process_work looks start get_ready_sts m r = process_get_ready_status m r
  my_process_work looks start get_debug_log m r = process_get_debug_logging m r
  my_process_work looks start set_debug_log m r = process_set_debug_logging m r
  my_process_work looks start trigger_factory_store m r =
      process_trigger trigger_factory_store preserve m r
  my_process_work looks start trigger_factory_restore m r =
      process_trigger trigger_factory_restore preserve m r
  my_process_work looks start event_subscribe m r = process_event_subscribe m r
  my_process_work looks start event_unsubscribe m r = process_event_unsubscribe m r
  my_process_work looks start event_notify m r = process_event_notify m r
  my_process_work looks start event_process m r = process_event_process m r
  my_process_work looks start trigger_run m r = process_trigger trigger_run preserve m r
  my_process_work looks start get_devop_state m r = process_work_cmn_rpc m r
  my_process_work looks start set_devop_state m r = process_trigger set_devop_state preserve m r
  my_process_work looks start get_mw_byte m r = process_work_cmn_rpc m r
  my_process_work looks start set_mw_byte m r = process_work_cmn_rpc m r
  my_process_work looks start get_mw_word m r = process_work_cmn_rpc m r
  my_process_work looks start set_mw_word m r = process_work_cmn_rpc m r
  my_process_work looks start get_mw_dword m r = process_work_cmn_rpc m r
  my_process_work looks start set_mw_dword m r = process_work_cmn_rpc m r
