-- ===== src/RpcMgr/Decode.antt =====
-- lib/lib-jsonrpc-tcp/src/ADJsonRpcMgr.cpp json_to_bin_*: the parameters of a request become a packet.
-- The macros of include/ADCommon.hpp are PREPARE_JSON_REQUEST (`prepared`), JSON_STRING_TO_INT
-- (`int_param`), JSON_STRING_TO_ULONG (`ulong_param`) and JSON_STRING_TO_ENUM (`enum_param`); a
-- parameter that is not there ends the request with `invalid`, the return code -1, and its packet is not
-- used any more. The numbers `tmp`
-- are what the source's uninitialised variable holds.
use Prim.Native.String.{String}
use jsonrpc_tcp_srv.Prelude.{
  ℕ, ◌%◌, List, [], ◌∷◌, none, some, leb, if◌then◌else◌, ℤ, pos, minus_one,
}
use jsonrpc_tcp_srv.RpcResult.{string_to_enum}
use jsonrpc_tcp_srv.StringProcessor.{find_single_param, atoi, sscanf_lu}
use jsonrpc_tcp_srv.Proxy.{invalid_param}
use jsonrpc_tcp_srv.RpcMgr.{
  RpcmgrCmd, get_task_sts, get_rpc_srv_version, trigger_datasave, get_settings_sts,
  shutdown_service, reset_task_sts, get_ready_sts, get_debug_log, set_debug_log,
  trigger_factory_store, trigger_factory_restore, event_subscribe, event_unsubscribe, event_notify,
  event_process, trigger_run, get_devop_state, set_devop_state, get_mw_byte, set_mw_byte,
  get_mw_word, set_mw_word, get_mw_dword, set_mw_dword, code_of_cmd, RpcSrvAct, act_read, act_write,
  EventPacket, MiddlewarePacket, Packet, task_sts_packet, integer_packet, settings_sts_packet,
  ready_sts_packet, debug_log_packet, devop_sts_packet, event_packet, middleware_packet, MgrJson,
  RequestObj,
}

abbrev pub debug_log_table : List String
debug_log_table = "disable" ∷ "enable" ∷ "unknown" ∷ "none" ∷ "" ∷ []

abbrev pub devop_state_table : List String
devop_state_table =
    "idle" ∷ "on" ∷ "laststate" ∷ "off" ∷ "reboot" ∷ "booting" ∷ "rebooting" ∷ "switchingoff"
    ∷ "boot" ∷ "idlenoexthw" ∷ "unknown" ∷ "none" ∷ "" ∷ []

-- The size of `param_value` and `temp_param`.
abbrev pub param_size : ℕ
param_size = 255

abbrev new_event_packet : EventPacket
new_event_packet = record {
  clt_token = pos 0;
  port_num = pos 0;
  event_num = pos 0;
  srv_token = pos 0;
  sock_descr = pos 0;
  sock_id = pos 0;
  ip = "";
  event_arg = pos 0;
  event_arg2 = pos 0;
}

abbrev new_middleware_packet : MiddlewarePacket
new_middleware_packet = record { addr = 0; byte = 0; word = 0; dword = 0 }

module _ {J V : Type 0} (json : MgrJson J) where
  -- PREPARE_JSON_REQUEST, with the packet as the rest of the call fills it.
  unfoldable pub prepared : RpcSrvAct → RpcmgrCmd → RequestObj J V → Packet V → ℤ × RequestObj J V
  unfolding code_of_cmd
  prepared action cmd r packet = (
    pos 0,
    record r {
      req = record r.req { action = action; cmd = pos (code_of_cmd cmd); data_ref = packet };
    },
  )

  unfoldable pub invalid : RequestObj J V → ℤ × RequestObj J V
  invalid r = (minus_one, record r { comm = record r.comm { mapper_result = invalid_param } })

  -- A packet for each value of the parameter.
  unfoldable pub with_param :
      RequestObj J V → String → (String → ℤ × RequestObj J V) → ℤ × RequestObj J V
  unfolding invalid
  with_param r name rest = elim (find_single_param json.params r.comm.socket_data name param_size) [
    | none ↦ invalid r
    | some text ↦ rest text
  ]

  unfoldable pub int_param : RequestObj J V → String → (ℤ → ℤ × RequestObj J V) → ℤ × RequestObj J V
  unfolding with_param
  int_param r name rest = with_param r name (λ text. rest (atoi text))

  -- A parameter that is tried with `find_single_param` first, and is -1 when it is not there.
  optional_int : RequestObj J V → String → ℤ
  optional_int r name = elim (find_single_param json.params r.comm.socket_data name param_size) [
    | none ↦ minus_one
    | some text ↦ atoi text
  ]

  unfoldable pub ulong_param :
      RequestObj J V → String → ℕ → (ℕ → ℤ × RequestObj J V) → ℤ × RequestObj J V
  unfolding with_param
  ulong_param r name tmp rest = with_param r name (λ text. rest (sscanf_lu tmp text))

  unfoldable pub enum_param :
      RequestObj J V → String → List String → ℕ → (ℕ → ℤ × RequestObj J V) → ℤ × RequestObj J V
  unfolding with_param invalid
  enum_param r name table max rest = with_param r name λ text.
      let value = string_to_enum table text max in if leb max value then invalid r else rest value

  unfoldable pub json_to_bin_get_task_sts : RequestObj J V → ℤ × RequestObj J V
  unfolding int_param prepared
  json_to_bin_get_task_sts r =
      int_param r "taskId" λ id. prepared act_read get_task_sts r (task_sts_packet id "")

  unfoldable pub json_to_bin_get_rpc_srv_version : RequestObj J V → ℤ × RequestObj J V
  unfolding prepared
  json_to_bin_get_rpc_srv_version r =
      prepared act_read get_rpc_srv_version r (integer_packet (pos 0))

  -- json_to_bin_trigger_datasave, _shutdown_service, _reset_task_sts, _trigger_factory_store,
  -- _trigger_factory_restore and _trigger_run.
  unfoldable pub json_to_bin_trigger : RpcmgrCmd → RequestObj J V → ℤ × RequestObj J V
  unfolding prepared
  json_to_bin_trigger cmd r = prepared act_write cmd r (task_sts_packet (pos 0) "")

  unfoldable pub json_to_bin_get_settings_sts : RequestObj J V → ℤ × RequestObj J V
  unfolding prepared
  json_to_bin_get_settings_sts r = prepared act_read get_settings_sts r (settings_sts_packet "")

  unfoldable pub json_to_bin_get_ready_sts : RequestObj J V → ℤ × RequestObj J V
  unfolding prepared
  json_to_bin_get_ready_sts r = prepared act_read get_ready_sts r (ready_sts_packet 0)

  unfoldable pub json_to_bin_get_debug_logging : RequestObj J V → ℤ × RequestObj J V
  unfolding prepared
  json_to_bin_get_debug_logging r = prepared act_read get_debug_log r (debug_log_packet 0)

  unfoldable pub json_to_bin_set_debug_logging : RequestObj J V → ℤ × RequestObj J V
  unfolding enum_param prepared
  json_to_bin_set_debug_logging r =
      enum_param r "status" debug_log_table 2
        λ status. prepared act_write set_debug_log r (debug_log_packet status)

  unfoldable pub json_to_bin_event_subscribe : RequestObj J V → ℤ × RequestObj J V
  unfolding int_param optional_int prepared
  json_to_bin_event_subscribe r = int_param r "cltToken" λ token.
      prepared act_write event_subscribe r (
        event_packet (record new_event_packet {
          clt_token = token;
          port_num = optional_int r "port";
          event_num = optional_int r "evntNum";
          sock_id = r.comm.sock_id;
          sock_descr = pos r.comm.sock_descr;
          ip = r.comm.ip;
        }))

  unfoldable pub json_to_bin_event_unsubscribe : RequestObj J V → ℤ × RequestObj J V
  unfolding int_param prepared
  json_to_bin_event_unsubscribe r = int_param r "srvToken" λ token.
      prepared act_write event_unsubscribe r
        (event_packet (record new_event_packet { srv_token = token }))

  unfoldable pub json_to_bin_event_notify : RequestObj J V → ℤ × RequestObj J V
  unfolding int_param optional_int prepared
  json_to_bin_event_notify r = int_param r "evntNum" λ num. prepared act_write event_notify r (
      event_packet (record new_event_packet {
        event_num = num;
        event_arg = optional_int r "evntArg1";
        event_arg2 = optional_int r "evntArg2";
      }))

  unfoldable pub json_to_bin_event_process : RequestObj J V → ℤ × RequestObj J V
  unfolding int_param optional_int prepared
  json_to_bin_event_process r = int_param r "cltToken" λ token. int_param r "evntNum" λ num.
      prepared act_write event_process r (
        event_packet (record new_event_packet {
          clt_token = token;
          event_num = num;
          event_arg = optional_int r "evntArg1";
          event_arg2 = optional_int r "evntArg2";
        }))

  unfoldable pub json_to_bin_get_devop_state : RequestObj J V → ℤ × RequestObj J V
  unfolding prepared
  json_to_bin_get_devop_state r = prepared act_read get_devop_state r (devop_sts_packet (pos 0))

  unfoldable pub json_to_bin_set_devop_state : RequestObj J V → ℤ × RequestObj J V
  unfolding enum_param prepared
  json_to_bin_set_devop_state r =
      enum_param r "status" devop_state_table 10
        λ status. prepared act_write set_devop_state r (devop_sts_packet (pos status))

  -- json_to_bin_get_mw_byte, _word and _dword.
  unfoldable pub json_to_bin_get_mw : ℕ → RpcmgrCmd → RequestObj J V → ℤ × RequestObj J V
  unfolding ulong_param prepared
  json_to_bin_get_mw tmp cmd r = ulong_param r "addr" tmp λ addr.
      prepared act_read cmd r
        (middleware_packet (record new_middleware_packet { addr = addr % 4294967296 }))

  unfoldable pub json_to_bin_set_mw_byte : ℕ → RequestObj J V → ℤ × RequestObj J V
  unfolding ulong_param prepared
  json_to_bin_set_mw_byte tmp r = ulong_param r "addr" tmp λ addr.
      ulong_param r "data" addr λ value. prepared act_write set_mw_byte r (
        middleware_packet
          (record new_middleware_packet { addr = addr % 4294967296; byte = value % 256 }))

  unfoldable pub json_to_bin_set_mw_word : ℕ → RequestObj J V → ℤ × RequestObj J V
  unfolding ulong_param prepared
  json_to_bin_set_mw_word tmp r = ulong_param r "addr" tmp λ addr.
      ulong_param r "data" addr λ value. prepared act_write set_mw_word r (
        middleware_packet
          (record new_middleware_packet { addr = addr % 4294967296; word = value % 256 }))

  unfoldable pub json_to_bin_set_mw_dword : ℕ → RequestObj J V → ℤ × RequestObj J V
  unfolding ulong_param prepared
  json_to_bin_set_mw_dword tmp r = ulong_param r "addr" tmp λ addr.
      ulong_param r "data" addr λ value. prepared act_write set_mw_dword r (
        middleware_packet
          (record new_middleware_packet { addr = addr % 4294967296; dword = value % 256 }))

  unfoldable pub my_map_json_to_binary : ℕ → RpcmgrCmd → RequestObj J V → ℤ × RequestObj J V
  unfolding json_to_bin_get_task_sts json_to_bin_get_rpc_srv_version json_to_bin_trigger
      json_to_bin_get_settings_sts json_to_bin_get_ready_sts json_to_bin_get_debug_logging
      json_to_bin_set_debug_logging json_to_bin_event_subscribe json_to_bin_event_unsubscribe
      json_to_bin_event_notify json_to_bin_event_process json_to_bin_get_devop_state
      json_to_bin_set_devop_state json_to_bin_get_mw json_to_bin_set_mw_byte json_to_bin_set_mw_word
      json_to_bin_set_mw_dword
  my_map_json_to_binary tmp get_task_sts r = json_to_bin_get_task_sts r
  my_map_json_to_binary tmp get_rpc_srv_version r = json_to_bin_get_rpc_srv_version r
  my_map_json_to_binary tmp trigger_datasave r = json_to_bin_trigger trigger_datasave r
  my_map_json_to_binary tmp get_settings_sts r = json_to_bin_get_settings_sts r
  my_map_json_to_binary tmp shutdown_service r = json_to_bin_trigger shutdown_service r
  my_map_json_to_binary tmp reset_task_sts r = json_to_bin_trigger reset_task_sts r
  my_map_json_to_binary tmp get_ready_sts r = json_to_bin_get_ready_sts r
  my_map_json_to_binary tmp get_debug_log r = json_to_bin_get_debug_logging r
  my_map_json_to_binary tmp set_debug_log r = json_to_bin_set_debug_logging r
  my_map_json_to_binary tmp trigger_factory_store r = json_to_bin_trigger trigger_factory_store r
  my_map_json_to_binary tmp trigger_factory_restore r =
      json_to_bin_trigger trigger_factory_restore r
  my_map_json_to_binary tmp event_subscribe r = json_to_bin_event_subscribe r
  my_map_json_to_binary tmp event_unsubscribe r = json_to_bin_event_unsubscribe r
  my_map_json_to_binary tmp event_notify r = json_to_bin_event_notify r
  my_map_json_to_binary tmp event_process r = json_to_bin_event_process r
  my_map_json_to_binary tmp trigger_run r = json_to_bin_trigger trigger_run r
  my_map_json_to_binary tmp get_devop_state r = json_to_bin_get_devop_state r
  my_map_json_to_binary tmp set_devop_state r = json_to_bin_set_devop_state r
  my_map_json_to_binary tmp get_mw_byte r = json_to_bin_get_mw tmp get_mw_byte r
  my_map_json_to_binary tmp set_mw_byte r = json_to_bin_set_mw_byte tmp r
  my_map_json_to_binary tmp get_mw_word r = json_to_bin_get_mw tmp get_mw_word r
  my_map_json_to_binary tmp set_mw_word r = json_to_bin_set_mw_word tmp r
  my_map_json_to_binary tmp get_mw_dword r = json_to_bin_get_mw tmp get_mw_dword r
  my_map_json_to_binary tmp set_mw_dword r = json_to_bin_set_mw_dword tmp r
