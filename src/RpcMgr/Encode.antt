-- ===== src/RpcMgr/Encode.antt =====
-- lib/lib-jsonrpc-tcp/src/ADJsonRpcMgr.cpp bin_to_json_*: the answer to a request, from its result and
-- its packet. The macros of include/ADCommon.hpp are PREPARE_JSON_RESP (`plain`),
-- PREPARE_JSON_RESP_STRING (`with_string`), PREPARE_JSON_RESP_ENUM (`with_enum`),
-- PREPARE_JSON_RESP_INT and PREPARE_JSON_RESP_IN_PROG (`with_int`).
use Prim.Native.String.{String}
use jsonrpc_tcp_srv.Prelude.{
  ℕ, zero, suc, ◌+◌, Bool, ◌||◌, List, [], ◌∷◌, none, some, ltb, ◌==◌, if◌then◌else◌, ℤ, pos,
  negsuc,
}
use jsonrpc_tcp_srv.RpcResult.{
  RpcSrvResult, success, in_prog, code_of, convert_server_result_to_string,
}
use jsonrpc_tcp_srv.StringProcessor.Numbers.{decimal}
use jsonrpc_tcp_srv.Proxy.{JsonDataCommObj}
use jsonrpc_tcp_srv.RpcMgr.{
  RpcmgrCmd, get_task_sts, get_rpc_srv_version, trigger_datasave, get_settings_sts,
  shutdown_service, reset_task_sts, get_ready_sts, get_debug_log, set_debug_log,
  trigger_factory_store, trigger_factory_restore, event_subscribe, event_unsubscribe, event_notify,
  event_process, trigger_run, get_devop_state, set_devop_state, get_mw_byte, set_mw_byte,
  get_mw_word, set_mw_word, get_mw_dword, set_mw_dword, Packet, task_sts_packet, integer_packet,
  settings_sts_packet, ready_sts_packet, devop_sts_packet, middleware_packet, plain_answer,
  string_answer, int_answer, MgrJson, RequestObj,
}
use jsonrpc_tcp_srv.RpcMgr.Decode.{debug_log_table, devop_state_table}
use jsonrpc_tcp_srv.RpcMgr.Packets.{task_id_of, event_of, flag_of}

abbrev ready_state_table : List String
ready_state_table = "notready" ∷ "ready" ∷ "busy" ∷ "unknown" ∷ "none" ∷ "" ∷ []

-- `table[index]`, which is in range.
entry_at : List String → ℕ → String
entry_at [] i = ""
entry_at (s ∷ ss) zero = s
entry_at (s ∷ ss) (suc i) = entry_at ss i

abbrev is_result : RpcSrvResult → RpcSrvResult → Bool
is_result a b = code_of a == code_of b

-- `sprintf("%d")`.
unfoldable pub printed : ℤ → String
printed (pos n) = decimal n
printed (negsuc n) = String.◌∷◌ "-" (decimal (n + 1))

-- An enumerator outside the table is its maximum.
enum_text : List String → ℕ → ℤ → String
unfolding entry_at
enum_text table max (pos n) = if ltb max n then entry_at table max else entry_at table n
enum_text table max (negsuc n) = entry_at table max

unfoldable pub status_text : {V : Type 0} → Packet V → String
status_text (task_sts_packet id sts) = sts
status_text (settings_sts_packet sts) = sts
status_text _ = ""

pub ready_of : {V : Type 0} → Packet V → ℤ
ready_of (ready_sts_packet status) = pos status
ready_of _ = pos 0

devop_of : {V : Type 0} → Packet V → ℤ
devop_of (devop_sts_packet status) = status
devop_of _ = pos 0

integer_of : {V : Type 0} → Packet V → ℤ
integer_of (integer_packet value) = value
integer_of _ = pos 0

srv_token_of : {V : Type 0} → Packet V → ℤ
unfolding event_of
srv_token_of p = elim (event_of p) [ some e ↦ e.srv_token | none ↦ pos 0 ]

byte_of : {V : Type 0} → Packet V → ℕ
byte_of (middleware_packet p) = p.byte
byte_of _ = 0

word_of : {V : Type 0} → Packet V → ℕ
word_of (middleware_packet p) = p.word
word_of _ = 0

dword_of : {V : Type 0} → Packet V → ℕ
dword_of (middleware_packet p) = p.dword
dword_of _ = 0

module _ {J V : Type 0} (json : MgrJson J) where
  -- `prepare_result_string` in its three forms that are used here.
  unfoldable pub prepare_result_string : RpcSrvResult → RequestObj J V → JsonDataCommObj J
  prepare_result_string result r = record r.comm {
    rpc_code = result;
    json_resp_obj = some (json.new_object (plain_answer (convert_server_result_to_string result)));
  }

  unfoldable pub prepare_string :
      RpcSrvResult → RequestObj J V → String → String → JsonDataCommObj J
  prepare_string result r name value = record r.comm {
    rpc_code = result;
    custom_result_string = value;
    json_resp_obj =
        some (json.new_object (string_answer (convert_server_result_to_string result) name value));
  }

  unfoldable pub prepare_int : RpcSrvResult → RequestObj J V → String → ℤ → JsonDataCommObj J
  unfolding printed
  prepare_int result r name value = record r.comm {
    rpc_code = result;
    custom_result_string = printed value;
    json_resp_obj =
        some (json.new_object (int_answer (convert_server_result_to_string result) name value));
  }

  unfoldable pub plain : RequestObj J V → JsonDataCommObj J
  unfolding prepare_result_string
  plain r = prepare_result_string r.req.result r

  unfoldable pub with_string : RequestObj J V → String → String → JsonDataCommObj J
  unfolding prepare_result_string prepare_string
  with_string r name value =
      if is_result r.req.result success
      then prepare_string r.req.result r name value
      else prepare_result_string r.req.result r

  unfoldable pub with_enum : RequestObj J V → String → List String → ℕ → ℤ → JsonDataCommObj J
  unfolding with_string enum_text
  with_enum r name table max value = with_string r name (enum_text table max value)

  unfoldable pub with_int : RequestObj J V → String → ℤ → JsonDataCommObj J
  unfolding prepare_result_string prepare_int
  with_int r name value =
      if is_result r.req.result success || is_result r.req.result in_prog
      then prepare_int r.req.result r name value
      else prepare_result_string r.req.result r

  -- Each case is one of bin_to_json_*.
  unfoldable pub my_map_binary_to_json : RpcmgrCmd → RequestObj J V → JsonDataCommObj J
  unfolding plain with_string with_enum with_int status_text ready_of devop_of integer_of
      srv_token_of byte_of word_of dword_of task_id_of flag_of
  my_map_binary_to_json get_task_sts r = with_string r "taskStatus" (status_text r.req.data_ref)
  my_map_binary_to_json get_rpc_srv_version r = with_int r "version" (integer_of r.req.data_ref)
  my_map_binary_to_json trigger_datasave r = with_int r "taskId" (task_id_of r.req.data_ref)
  my_map_binary_to_json get_settings_sts r = with_string r "status" (status_text r.req.data_ref)
  my_map_binary_to_json shutdown_service r = with_int r "taskId" (task_id_of r.req.data_ref)
  my_map_binary_to_json reset_task_sts r = plain r
  my_map_binary_to_json get_ready_sts r =
      with_enum r "status" ready_state_table 3 (ready_of r.req.data_ref)
  my_map_binary_to_json get_debug_log r =
      with_enum r "status" debug_log_table 2 (pos (flag_of r.req.data_ref))
  my_map_binary_to_json set_debug_log r = plain r
  my_map_binary_to_json trigger_factory_store r = with_int r "taskId" (task_id_of r.req.data_ref)
  my_map_binary_to_json trigger_factory_restore r = with_int r "taskId" (task_id_of r.req.data_ref)
  my_map_binary_to_json event_subscribe r = with_int r "srvToken" (srv_token_of r.req.data_ref)
  my_map_binary_to_json event_unsubscribe r = plain r
  my_map_binary_to_json event_notify r = plain r
  my_map_binary_to_json event_process r = plain r
  my_map_binary_to_json trigger_run r = with_int r "taskId" (task_id_of r.req.data_ref)
  my_map_binary_to_json get_devop_state r =
      with_enum r "status" devop_state_table 10 (devop_of r.req.data_ref)
  my_map_binary_to_json set_devop_state r = plain r
  my_map_binary_to_json get_mw_byte r = with_int r "data" (pos (byte_of r.req.data_ref))
  my_map_binary_to_json set_mw_byte r = plain r
  my_map_binary_to_json get_mw_word r = with_int r "data" (pos (word_of r.req.data_ref))
  my_map_binary_to_json set_mw_word r = plain r
  my_map_binary_to_json get_mw_dword r = with_int r "data" (pos (dword_of r.req.data_ref))
  my_map_binary_to_json set_mw_dword r = plain r
