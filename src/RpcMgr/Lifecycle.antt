-- ===== src/RpcMgr/Lifecycle.antt =====
-- lib/lib-jsonrpc-tcp/src/ADJsonRpcMgr.cpp Start and Stop. `listen` is what start_listening answers, true for
-- 0, and a stop of a part is an event.
use Prim.Native.String.{String}
use Prim.Native.Char.{code}
use jsonrpc_tcp_srv.Prelude.{
  ℕ, ◌+◌, Bool, true, List, [], ◌∷◌, Option, none, some, if◌then◌else◌, ℤ, pos, minus_one,
}
use jsonrpc_tcp_srv.Framer.{Bytes}
use jsonrpc_tcp_srv.Proxy.{Proxy, attach_rpc_method}
use jsonrpc_tcp_srv.RpcMgr.{
  RpcmgrCmd, get_task_sts, get_rpc_srv_version, trigger_datasave, get_settings_sts,
  shutdown_service, reset_task_sts, get_ready_sts, get_debug_log, set_debug_log,
  trigger_factory_store, trigger_factory_restore, event_subscribe, event_unsubscribe, event_notify,
  event_process, trigger_run, get_devop_state, set_devop_state, get_mw_byte, set_mw_byte,
  get_mw_word, set_mw_word, get_mw_dword, set_mw_dword, code_of_cmd, cmd_end, RpcHandler, RpcMgr,
}

-- The bytes of an ASCII text.
abbrev pub bytes_of : String → Bytes
bytes_of String.[] = []
bytes_of (String.◌∷◌ c s) = code c ∷ bytes_of s

-- The methods of the manager, in the order in which `Start` attaches them.
abbrev pub builtin_methods : List (RpcmgrCmd × String)
builtin_methods =
    (get_task_sts, "get_rpc_req_status")
    ∷ (get_rpc_srv_version, "get_rpc_srv_version")
    ∷ (trigger_datasave, "trigger_settings_save")
    ∷ (get_settings_sts, "get_settings_status")
    ∷ (shutdown_service, "trigger_shutdown")
    ∷ (reset_task_sts, "reset_task_status")
    ∷ (get_ready_sts, "get_ready_status")
    ∷ (get_debug_log, "get_debug_logging")
    ∷ (set_debug_log, "set_debug_logging")
    ∷ (trigger_factory_store, "trigger_factory_store")
    ∷ (trigger_factory_restore, "trigger_factory_restore")
    ∷ (event_subscribe, "subscribe_event")
    ∷ (event_unsubscribe, "unsubscribe_event")
    ∷ (event_notify, "notify_event")
    ∷ (event_process, "process_event")
    ∷ (trigger_run, "run_now")
    ∷ (get_devop_state, "get_devop_state")
    ∷ (set_devop_state, "set_devop_state")
    ∷ (get_mw_byte, "read_byte")
    ∷ (set_mw_byte, "write_byte")
    ∷ (get_mw_word, "read_word")
    ∷ (set_mw_word, "write_word")
    ∷ (get_mw_dword, "read_dword")
    ∷ (set_mw_dword, "write_dword")
    ∷ []

-- The stops of `Stop`, in its order.
pub data Stopped : Type 0 where
  receiving mapper task_worker event_mgr proxy : Stopped

-- `JMapper.attach_rpc_method`, which drops the return code.
unfoldable pub attach_builtins : {J : Type 0} → List (RpcmgrCmd × String) → Proxy J → Proxy J
unfolding code_of_cmd
attach_builtins [] p = p
attach_builtins ((cmd, name) ∷ ms) p =
    attach_builtins ms (attach_rpc_method p (bytes_of name) (pos (code_of_cmd cmd))).1

module _ {J V S : Type 0} where
  -- The loop over the handlers, from the `i`-th; each learns its command.
  unfoldable pub attach_handlers :
      ℕ → List (RpcHandler J V S) → Proxy J → List (RpcHandler J V S) × Proxy J
  attach_handlers i [] p = ([], p)
  attach_handlers i (h ∷ hs) p =
      let (hs', p') =
        attach_handlers (i + 1) hs (attach_rpc_method p h.rpc_name (pos (i + cmd_end))).1 in
      (record h { parent_index = pos (i + cmd_end) } ∷ hs', p')

  unfoldable pub attach_methods : RpcMgr J V S → RpcMgr J V S
  unfolding attach_builtins attach_handlers
  attach_methods m =
      let (handlers, p) = attach_handlers 0 m.rpclist (attach_builtins builtin_methods m.proxy) in
      record m { methods_attached = true; rpclist = handlers; proxy = p }

  pub start : Bool → RpcMgr J V S → ℤ × RpcMgr J V S
  unfolding attach_methods
  start listen m =
      if m.stopped
      then (minus_one, m)
      else if m.methods_attached
      then ((if listen then pos 0 else minus_one), m)
      else ((if listen then pos 0 else minus_one), attach_methods m)

  -- `Start` with an address, where `bind` is what set_bind_address answers, true for 0.
  start_at : Option Bool → Bool → RpcMgr J V S → ℤ × RpcMgr J V S
  unfolding start
  start_at none listen m = start listen m
  start_at (some bind) listen m = if bind then start listen m else (minus_one, m)

  -- The stops that the call makes.
  pub stop : RpcMgr J V S → List Stopped × RpcMgr J V S
  stop m =
      if m.stopped
      then ([], m)
      else (receiving ∷ mapper ∷ task_worker ∷ event_mgr ∷ proxy ∷ [], record m { stopped = true })
