-- ===== src/RpcMgr/Answers.antt =====
-- lib/lib-jsonrpc-tcp/src/ADJsonRpcMgr.cpp: every request for a command of the manager's own is answered.
use Prim.Native.String.{String}
use jsonrpc_tcp_srv.Prelude.{◌||◌, some, ℤ, Bool-cases, ◌≡◌, refl, inl, inr, ◌==◌}
use jsonrpc_tcp_srv.RpcResult.{success, in_prog, code_of, convert_server_result_to_string}
use jsonrpc_tcp_srv.Proxy.{JsonDataCommObj}
use jsonrpc_tcp_srv.RpcMgr.{
  RpcmgrCmd, get_task_sts, get_rpc_srv_version, trigger_datasave, get_settings_sts,
  shutdown_service, reset_task_sts, get_ready_sts, get_debug_log, set_debug_log,
  trigger_factory_store, trigger_factory_restore, event_subscribe, event_unsubscribe, event_notify,
  event_process, trigger_run, get_devop_state, set_devop_state, get_mw_byte, set_mw_byte,
  get_mw_word, set_mw_word, get_mw_dword, set_mw_dword, Answer, plain_answer, string_answer,
  int_answer, MgrJson, RequestObj,
}
use jsonrpc_tcp_srv.RpcMgr.Encode.{
  my_map_binary_to_json, with_string, with_enum, with_int, plain, prepare_result_string,
  prepare_string, prepare_int,
}

-- The "return" of an answer.
abbrev pub return_of : Answer → String
return_of (plain_answer s) = s
return_of (string_answer s _ _) = s
return_of (int_answer s _ _) = s

module _ {J : Type 0} (json : MgrJson J) where
  -- There is an answer, and its "return" is the string of the result.
  pub record IsAnswered (d : JsonDataCommObj J) : Type 0 where
    pub answer : Answer
    pub sent : d.json_resp_obj ≡ some (json.new_object answer)
    pub returned : return_of answer ≡ convert_server_result_to_string d.rpc_code

module _ {J V : Type 0} (json : MgrJson J) where
  plain-IsAnswered : (r : RequestObj J V) → IsAnswered json (plain json r)
  unfolding plain prepare_result_string
  plain-IsAnswered r = record {
    answer = plain_answer (convert_server_result_to_string r.req.result);
    sent = refl;
    returned = refl;
  }

  string-IsAnswered :
      (r : RequestObj J V) (name value : String) → IsAnswered json (with_string json r name value)
  unfolding with_string prepare_string prepare_result_string plain
  string-IsAnswered r name value = elim (Bool-cases (code_of r.req.result == code_of success)) [
    | inl e ↦ rw e (record {
      answer = string_answer (convert_server_result_to_string r.req.result) name value;
      sent = refl;
      returned = refl;
    })
    | inr e ↦ rw e (plain-IsAnswered r)
  ]

  int-IsAnswered :
      (r : RequestObj J V) (name : String) (value : ℤ)
      → IsAnswered json (with_int json r name value)
  unfolding with_int prepare_int prepare_result_string plain
  int-IsAnswered r name value =
      elim (Bool-cases
        ((code_of r.req.result == code_of success) || (code_of r.req.result == code_of in_prog))) [
          | inl e ↦ rw e (record {
            answer = int_answer (convert_server_result_to_string r.req.result) name value;
            sent = refl;
            returned = refl;
          })
          | inr e ↦ rw e (plain-IsAnswered r)
        ]

  pub my_map_binary_to_json-IsAnswered :
      (cmd : RpcmgrCmd) (r : RequestObj J V) → IsAnswered json (my_map_binary_to_json json cmd r)
  unfolding my_map_binary_to_json with_enum
  my_map_binary_to_json-IsAnswered get_task_sts r = string-IsAnswered r _ _
  my_map_binary_to_json-IsAnswered get_rpc_srv_version r = int-IsAnswered r _ _
  my_map_binary_to_json-IsAnswered trigger_datasave r = int-IsAnswered r _ _
  my_map_binary_to_json-IsAnswered get_settings_sts r = string-IsAnswered r _ _
  my_map_binary_to_json-IsAnswered shutdown_service r = int-IsAnswered r _ _
  my_map_binary_to_json-IsAnswered reset_task_sts r = plain-IsAnswered r
  my_map_binary_to_json-IsAnswered get_ready_sts r = string-IsAnswered r _ _
  my_map_binary_to_json-IsAnswered get_debug_log r = string-IsAnswered r _ _
  my_map_binary_to_json-IsAnswered set_debug_log r = plain-IsAnswered r
  my_map_binary_to_json-IsAnswered trigger_factory_store r = int-IsAnswered r _ _
  my_map_binary_to_json-IsAnswered trigger_factory_restore r = int-IsAnswered r _ _
  my_map_binary_to_json-IsAnswered event_subscribe r = int-IsAnswered r _ _
  my_map_binary_to_json-IsAnswered event_unsubscribe r = plain-IsAnswered r
  my_map_binary_to_json-IsAnswered event_notify r = plain-IsAnswered r
  my_map_binary_to_json-IsAnswered event_process r = plain-IsAnswered r
  my_map_binary_to_json-IsAnswered trigger_run r = int-IsAnswered r _ _
  my_map_binary_to_json-IsAnswered get_devop_state r = string-IsAnswered r _ _
  my_map_binary_to_json-IsAnswered set_devop_state r = plain-IsAnswered r
  my_map_binary_to_json-IsAnswered get_mw_byte r = int-IsAnswered r _ _
  my_map_binary_to_json-IsAnswered set_mw_byte r = plain-IsAnswered r
  my_map_binary_to_json-IsAnswered get_mw_word r = int-IsAnswered r _ _
  my_map_binary_to_json-IsAnswered set_mw_word r = plain-IsAnswered r
  my_map_binary_to_json-IsAnswered get_mw_dword r = int-IsAnswered r _ _
  my_map_binary_to_json-IsAnswered set_mw_dword r = plain-IsAnswered r
