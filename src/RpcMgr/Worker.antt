-- ===== src/RpcMgr/Worker.antt =====
-- lib/lib-jsonrpc-tcp ADJsonRpcMgr (.hpp, .cpp): what the task worker's thread does for the manager.
-- `run_work` takes effect when it returns.
use jsonrpc_tcp_srv.Prelude.{
  ℕ, ◌+◌, ◌-◌, List, [], ◌∷◌, Option, none, some, ltb, leb, if◌then◌else◌, ℤ, pos,
}
use jsonrpc_tcp_srv.RpcResult.{RpcSrvResult, success, fail, feature_unsupported, code_of}
use jsonrpc_tcp_srv.TaskWorker.{WorkCmdTask, begin_work, finish_work, push_task}
use jsonrpc_tcp_srv.EvntMgr.{EvntMgr, notify_event}
use jsonrpc_tcp_srv.RpcMgr.{
  RpcmgrCmd, get_task_sts, get_rpc_srv_version, trigger_datasave, get_settings_sts,
  shutdown_service, reset_task_sts, get_ready_sts, get_debug_log, set_debug_log,
  trigger_factory_store, trigger_factory_restore, event_subscribe, event_unsubscribe, event_notify,
  event_process, trigger_run, get_devop_state, set_devop_state, get_mw_byte, set_mw_byte,
  get_mw_word, set_mw_word, get_mw_dword, set_mw_dword, cmd_of, cmd_end, Packet, RequestObj, Work,
  done, push, RpcHandler, RpcMgr, get_total_attached_rpcs, get_rpc_handler, get_cmn_rpc_handler,
}

-- `task_worker_event` for each event that the worker reports.
unfoldable pub task_worker_events : EvntMgr → List (ℕ × ℕ × RpcSrvResult) → EvntMgr
task_worker_events e [] = e
task_worker_events e ((num, arg, arg2) ∷ evs) =
    task_worker_events (notify_event e (pos num) (pos arg) (pos (code_of arg2))) evs

module _ {J V S : Type 0} where
  -- A handler's `ProcessWorkAsync`, or the result when there is no handler.
  unfoldable pub work_async_of :
      RpcMgr J V S
      → Option (RpcHandler J V S)
      → RpcSrvResult
      → ℤ
      → Packet V
      → RpcSrvResult × RpcMgr J V S
  work_async_of m none otherwise cmd packet = (otherwise, m)
  work_async_of m (some h) otherwise cmd packet =
      let (result, s) = h.handle_work_async cmd packet m.service in
      (result, record m { service = s })

  unfoldable pub cmn_rpc_handler : RpcMgr J V S → ℤ → Packet V → RpcSrvResult × RpcMgr J V S
  unfolding work_async_of get_cmn_rpc_handler
  cmn_rpc_handler m cmd packet =
      work_async_of m (get_cmn_rpc_handler m) feature_unsupported cmd packet

  -- The commands are those of tasks, which are not negative.
  unfoldable pub async_task_work : RpcMgr J V S → ℕ → Packet V → RpcSrvResult × RpcMgr J V S
  unfolding work_async_of get_rpc_handler
  async_task_work m cmd packet =
      if leb (get_total_attached_rpcs m) (cmd - cmd_end)
      then (fail, m)
      else if ltb cmd cmd_end
      then (fail, m)
      else work_async_of m (get_rpc_handler m (pos (cmd - cmd_end))) fail (pos (cmd - cmd_end))
          packet

  -- The switch of `run_work`.
  unfoldable pub run_builtin :
      RpcMgr J V S → Option RpcmgrCmd → ℕ → Packet V → RpcSrvResult × RpcMgr J V S
  unfolding async_task_work cmn_rpc_handler
  run_builtin m none cmd packet = async_task_work m cmd packet
  run_builtin m (some shutdown_service) cmd packet =
      (success, (if m.has_timer then record m { forced_exits = m.forced_exits + 1 } else m))
  run_builtin m (some trigger_datasave) cmd packet = cmn_rpc_handler m (pos cmd) packet
  run_builtin m (some trigger_factory_store) cmd packet = cmn_rpc_handler m (pos cmd) packet
  run_builtin m (some trigger_factory_restore) cmd packet = cmn_rpc_handler m (pos cmd) packet
  run_builtin m (some trigger_run) cmd packet = cmn_rpc_handler m (pos cmd) packet
  run_builtin m (some set_devop_state) cmd packet = cmn_rpc_handler m (pos cmd) packet
  run_builtin m (some get_task_sts) cmd packet = (fail, m)
  run_builtin m (some get_rpc_srv_version) cmd packet = (fail, m)
  run_builtin m (some get_settings_sts) cmd packet = (fail, m)
  run_builtin m (some reset_task_sts) cmd packet = (fail, m)
  run_builtin m (some get_ready_sts) cmd packet = (fail, m)
  run_builtin m (some get_debug_log) cmd packet = (fail, m)
  run_builtin m (some set_debug_log) cmd packet = (fail, m)
  run_builtin m (some event_subscribe) cmd packet = (fail, m)
  run_builtin m (some event_unsubscribe) cmd packet = (fail, m)
  run_builtin m (some event_notify) cmd packet = (fail, m)
  run_builtin m (some event_process) cmd packet = (fail, m)
  run_builtin m (some get_devop_state) cmd packet = (fail, m)
  run_builtin m (some get_mw_byte) cmd packet = (fail, m)
  run_builtin m (some set_mw_byte) cmd packet = (fail, m)
  run_builtin m (some get_mw_word) cmd packet = (fail, m)
  run_builtin m (some set_mw_word) cmd packet = (fail, m)
  run_builtin m (some get_mw_dword) cmd packet = (fail, m)
  run_builtin m (some set_mw_dword) cmd packet = (fail, m)

  unfoldable pub run_work : RpcMgr J V S → ℕ → Packet V → RpcSrvResult × RpcMgr J V S
  unfolding run_builtin cmd_of
  run_work m cmd packet = run_builtin m (cmd_of (pos cmd)) cmd packet

  -- The thread begins a task only when it has none.
  unfoldable pub worker_begins : RpcMgr J V S → ℕ → RpcMgr J V S
  worker_begins m now = elim m.task_worker.running [
    | none ↦ record m { task_worker = begin_work m.task_worker now }
    | some t ↦ m
  ]

  unfoldable pub worker_ends_of : RpcMgr J V S → Option (WorkCmdTask (Packet V)) → RpcMgr J V S
  unfolding run_work task_worker_events
  worker_ends_of m none = m
  worker_ends_of m (some t) =
      let (result, m') = run_work m t.command t.work_data in
      let (events, w) = finish_work m'.task_worker result in
      record m' { task_worker = w; event_mgr = task_worker_events m'.event_mgr events }

  -- The end of the worker's callback, with its call of `run_work`.
  unfoldable pub worker_ends : RpcMgr J V S → RpcMgr J V S
  unfolding worker_ends_of
  worker_ends m = worker_ends_of m m.task_worker.running

  -- What a handler does for `ProcessWork`, with `PushAsyncTask`.
  unfoldable pub run_handler : RpcMgr J V S → Work J V S → ℤ × RequestObj J V × RpcMgr J V S
  run_handler m (done code r s) = (code, r, record m { service = s })
  run_handler m (push cmd packet flag next) =
      let (id, w) = push_task m.task_worker (cmd + cmd_end) packet flag in
      run_handler (record m { task_worker = w }) (next id)

-- A step of the worker's thread.
pub data WorkerStep : Type 0 where
  begins : ℕ → WorkerStep
  ends : WorkerStep

module _ {J V S : Type 0} where
  abbrev pub worker_steps : List WorkerStep → RpcMgr J V S → RpcMgr J V S
  worker_steps [] m = m
  worker_steps (begins now ∷ ss) m = worker_steps ss (worker_begins m now)
  worker_steps (ends ∷ ss) m = worker_steps ss (worker_ends m)
