-- ===== src/RpcMgr/Decoding.antt =====
-- lib/lib-jsonrpc-tcp/src/ADJsonRpcMgr.cpp json_to_bin_*: a request is decoded or refused.
use Prim.Native.String.{String}
use jsonrpc_tcp_srv.Prelude.{
  ℕ, List, leb, ℤ, pos, minus_one, Bool-cases, Option-cases, ◌≡◌, refl, ◌⊎◌, inl, inr,
}
use jsonrpc_tcp_srv.RpcResult.{string_to_enum}
use jsonrpc_tcp_srv.StringProcessor.{find_single_param}
use jsonrpc_tcp_srv.Proxy.{invalid_param}
use jsonrpc_tcp_srv.RpcMgr.{
  RpcmgrCmd, get_task_sts, get_rpc_srv_version, trigger_datasave, get_settings_sts,
  shutdown_service, reset_task_sts, get_ready_sts, get_debug_log, set_debug_log,
  trigger_factory_store, trigger_factory_restore, event_subscribe, event_unsubscribe, event_notify,
  event_process, trigger_run, get_devop_state, set_devop_state, get_mw_byte, set_mw_byte,
  get_mw_word, set_mw_word, get_mw_dword, set_mw_dword, MgrJson, RequestObj, act_write,
  debug_log_packet, devop_sts_packet,
}
use jsonrpc_tcp_srv.RpcMgr.Decode.{
  my_map_json_to_binary, with_param, int_param, ulong_param, enum_param, invalid, prepared,
  param_size, json_to_bin_get_task_sts, json_to_bin_get_rpc_srv_version, json_to_bin_trigger,
  json_to_bin_get_settings_sts, json_to_bin_get_ready_sts, json_to_bin_get_debug_logging,
  json_to_bin_set_debug_logging, json_to_bin_event_subscribe, json_to_bin_event_unsubscribe,
  json_to_bin_event_notify, json_to_bin_event_process, json_to_bin_get_devop_state,
  json_to_bin_set_devop_state, json_to_bin_get_mw, json_to_bin_set_mw_byte, json_to_bin_set_mw_word,
  json_to_bin_set_mw_dword,
}

module _ {J V : Type 0} where
  -- The request is decoded, or is refused as one with an invalid parameter.
  abbrev IsDecoded : RequestObj J V → ℤ × RequestObj J V → Type 0
  IsDecoded r (code, r') =
      ((code ≡ pos 0) × (r'.comm ≡ r.comm))
      ⊎ ((code ≡ minus_one) × (r'.comm ≡ record r.comm { mapper_result = invalid_param }))

module _ {J V : Type 0} (json : MgrJson J) where
  with_param-IsDecoded :
      (r : RequestObj J V) (name : String) (rest : String → ℤ × RequestObj J V)
      → ((text : String) → IsDecoded r (rest text))
      → IsDecoded r (with_param json r name rest)
  unfolding with_param invalid find_single_param
  with_param-IsDecoded r name rest h =
      elim (Option-cases (find_single_param json.params r.comm.socket_data name param_size)) [
        | inl e ↦ rw e (inr (refl, refl))
        | inr (text, e) ↦ rw e (h text)
      ]

  enum-IsDecoded :
      (r : RequestObj J V) (name : String) (table : List String) (max : ℕ)
      (rest : ℕ → ℤ × RequestObj J V)
      → ((value : ℕ) → IsDecoded r (rest value))
      → IsDecoded r (enum_param json r name table max rest)
  unfolding enum_param invalid
  enum-IsDecoded r name table max rest h = with_param-IsDecoded r name _ λ text.
      elim (Bool-cases (leb max (string_to_enum table text max))) [
        | inl e ↦ rw e (inr (refl, refl))
        | inr e ↦ rw e (h (string_to_enum table text max))
      ]

  -- Every request for a command of the manager's own is decoded or refused.
  pub my_map_json_to_binary-IsDecoded :
      (tmp : ℕ) (cmd : RpcmgrCmd) (r : RequestObj J V)
      → IsDecoded r (my_map_json_to_binary json tmp cmd r)
  unfolding my_map_json_to_binary prepared int_param ulong_param json_to_bin_get_task_sts
      json_to_bin_get_rpc_srv_version json_to_bin_trigger json_to_bin_get_settings_sts
      json_to_bin_get_ready_sts json_to_bin_get_debug_logging json_to_bin_set_debug_logging
      json_to_bin_event_subscribe json_to_bin_event_unsubscribe json_to_bin_event_notify
      json_to_bin_event_process json_to_bin_get_devop_state json_to_bin_set_devop_state
      json_to_bin_get_mw json_to_bin_set_mw_byte json_to_bin_set_mw_word json_to_bin_set_mw_dword
  my_map_json_to_binary-IsDecoded tmp get_task_sts r =
      with_param-IsDecoded r _ _ λ text. inl (refl, refl)
  my_map_json_to_binary-IsDecoded tmp get_rpc_srv_version r = inl (refl, refl)
  my_map_json_to_binary-IsDecoded tmp trigger_datasave r = inl (refl, refl)
  my_map_json_to_binary-IsDecoded tmp get_settings_sts r = inl (refl, refl)
  my_map_json_to_binary-IsDecoded tmp shutdown_service r = inl (refl, refl)
  my_map_json_to_binary-IsDecoded tmp reset_task_sts r = inl (refl, refl)
  my_map_json_to_binary-IsDecoded tmp get_ready_sts r = inl (refl, refl)
  my_map_json_to_binary-IsDecoded tmp get_debug_log r = inl (refl, refl)
  my_map_json_to_binary-IsDecoded tmp set_debug_log r =
      enum-IsDecoded r _ _ 2
        (λ value. prepared json act_write set_debug_log r (debug_log_packet value))
        λ value. inl (refl, refl)
  my_map_json_to_binary-IsDecoded tmp trigger_factory_store r = inl (refl, refl)
  my_map_json_to_binary-IsDecoded tmp trigger_factory_restore r = inl (refl, refl)
  my_map_json_to_binary-IsDecoded tmp event_subscribe r =
      with_param-IsDecoded r _ _ λ text. inl (refl, refl)
  my_map_json_to_binary-IsDecoded tmp event_unsubscribe r =
      with_param-IsDecoded r _ _ λ text. inl (refl, refl)
  my_map_json_to_binary-IsDecoded tmp event_notify r =
      with_param-IsDecoded r _ _ λ text. inl (refl, refl)
  my_map_json_to_binary-IsDecoded tmp event_process r =
      with_param-IsDecoded r _ _ λ text. with_param-IsDecoded r _ _ λ num. inl (refl, refl)
  my_map_json_to_binary-IsDecoded tmp trigger_run r = inl (refl, refl)
  my_map_json_to_binary-IsDecoded tmp get_devop_state r = inl (refl, refl)
  my_map_json_to_binary-IsDecoded tmp set_devop_state r =
      enum-IsDecoded r _ _ 10
        (λ value. prepared json act_write set_devop_state r (devop_sts_packet (pos value)))
        λ value. inl (refl, refl)
  my_map_json_to_binary-IsDecoded tmp get_mw_byte r =
      with_param-IsDecoded r _ _ λ addr. inl (refl, refl)
  my_map_json_to_binary-IsDecoded tmp set_mw_byte r =
      with_param-IsDecoded r _ _ λ addr. with_param-IsDecoded r _ _ λ value. inl (refl, refl)
  my_map_json_to_binary-IsDecoded tmp get_mw_word r =
      with_param-IsDecoded r _ _ λ addr. inl (refl, refl)
  my_map_json_to_binary-IsDecoded tmp set_mw_word r =
      with_param-IsDecoded r _ _ λ addr. with_param-IsDecoded r _ _ λ value. inl (refl, refl)
  my_map_json_to_binary-IsDecoded tmp get_mw_dword r =
      with_param-IsDecoded r _ _ λ addr. inl (refl, refl)
  my_map_json_to_binary-IsDecoded tmp set_mw_dword r =
      with_param-IsDecoded r _ _ λ addr. with_param-IsDecoded r _ _ λ value. inl (refl, refl)
