-- ===== src/Proxy/Requests.antt =====
-- lib/lib-jsonrpc-tcp/src/ADJsonRpcProxy.cpp: the requests that the proxy takes, and the replies that it
-- sends, errors included. Each step of `json_process_request` that can fail is a function of its own.
use Prim.Native.String.{String}
use jsonrpc_tcp_srv.Prelude.{
  ℕ, ◌+◌, Bool, true, false, not, Option, none, some, leb, if◌then◌else◌, length, ℤ, pos,
}
use jsonrpc_tcp_srv.RpcResult.{not_started}
use jsonrpc_tcp_srv.Chain.{chain_put, chain_get, chain_remove_by_ident, chain_generate_ident}
use jsonrpc_tcp_srv.NetServer.{NetDataObj}
use jsonrpc_tcp_srv.NetServer.Sending.{schedule_response}
use jsonrpc_tcp_srv.Proxy.{
  CmdTaskAcc, sync, async, task_not_started, JsonRpcErrType, parse_error, invalid_req,
  method_not_found, internal_error, json_rpc_method_name_max_length, RpcCommand, ApiTaskObj, Reply,
  JsonC, Proxy, bytes_eq, async_word, error_code, error_message, error_id, result_string,
  identify_task, is_batch, is_this_method_registered, rpc_call_notification, error_reply,
  result_reply, fail_reply,
}

module _ {J : Type 0} (json : JsonC J) where
  unfoldable pub send_json_object : Proxy J → ℕ → ℤ → Reply J → Proxy J
  send_json_object p fd cltid obj = elim (json.to_json_string obj) [
    | none ↦ p
    | some message ↦ record p {
      server_socket = (schedule_response p.server_socket fd cltid message).1;
    }
  ]

  unfoldable pub error_reply_of : JsonRpcErrType → ℤ → Reply J
  unfolding error_code error_message error_id
  error_reply_of err_type id =
      error_reply (error_code err_type) (error_message err_type) (error_id err_type id)

  unfoldable pub json_send_error_response_string : Proxy J → ℤ → ℕ → JsonRpcErrType → ℤ → Proxy J
  unfolding send_json_object error_reply_of
  json_send_error_response_string p id fd err_type cltid =
      send_json_object p fd cltid (error_reply_of err_type id)

  pub result_reply_of : Option J → String → ℤ → Reply J
  result_reply_of none result id = fail_reply result id
  result_reply_of (some obj) result id = result_reply obj id

  unfoldable pub json_send_result_response_string :
      Proxy J → ℤ → ℕ → String → ApiTaskObj J → Proxy J
  unfolding send_json_object result_reply_of
  json_send_result_response_string p id fd result task =
      send_json_object p fd task.net_data.cltid (result_reply_of task.json_resp_obj result id)

  unfoldable pub json_send_new_result : Proxy J → ApiTaskObj J → Proxy J
  unfolding json_send_result_response_string
  json_send_new_result p t =
      json_send_result_response_string p t.req_id t.net_data.sock_descriptor
        (result_string t.task_result t.custom_result_string) t

  unfoldable pub get_jsonrpc_id : J → Option ℤ
  get_jsonrpc_id obj = elim (json.get_string obj "id") [
    | none ↦ none
    | some _ ↦ some (json.get_int obj "id")
  ]

  unfoldable pub get_jsonrpc_method : Proxy J → J → Option RpcCommand
  get_jsonrpc_method p obj = elim (json.get_string obj "method") [
    | none ↦ none
    | some method ↦
        if leb json_rpc_method_name_max_length (length method)
        then none
        else is_this_method_registered p method
  ]

  pub get_jsonrpc_acc : J → CmdTaskAcc
  unfolding bytes_eq
  get_jsonrpc_acc obj = elim (json.get_string obj "access") [
    | none ↦ sync
    | some access ↦ if bytes_eq access async_word then async else sync
  ]

  -- A failed request: its error reply, and the code -1.
  unfoldable pub refuse : Proxy J → NetDataObj → JsonRpcErrType → ℤ → Bool × Proxy J
  refuse p req err_type id =
      (false, json_send_error_response_string p id req.sock_descriptor err_type req.cltid)

  -- The task of a request to a method, put on both chains.
  unfoldable pub enqueue : Proxy J → NetDataObj → J → ℤ → RpcCommand → Bool × Proxy J
  unfolding refuse
  enqueue p req obj id method =
      let (ident, c) = chain_generate_ident p.req_resp_chain in
      let (put, c') = chain_put c (record {
        ident = ident;
        req_id = id;
        net_data = req;
        rpc_method = method;
        access = get_jsonrpc_acc obj;
        task_result = task_not_started;
        rpc_code = not_started;
        json_resp_obj = none;
        custom_result_string = "";
      }) in
      let p' = record p { req_resp_chain = c' } in
      let (called, p'') = rpc_call_notification p' ident in
      if not put
      then refuse p' req internal_error id
      else if not called
      then refuse (record p'' { req_resp_chain = (chain_remove_by_ident identify_task c' ident).1 })
          req internal_error id
      else (true, record p'' { total_req_received = p''.total_req_received + 1 })

  unfoldable pub method_request : Proxy J → NetDataObj → J → ℤ → Option RpcCommand → Bool × Proxy J
  unfolding refuse enqueue
  method_request p req obj id none = refuse p req method_not_found id
  method_request p req obj id (some method) = enqueue p req obj id method

  unfoldable pub id_request : Proxy J → NetDataObj → J → Option ℤ → Bool × Proxy J
  unfolding refuse method_request
  id_request p req obj none = refuse p req invalid_req (pos 0)
  id_request p req obj (some id) = method_request p req obj id (get_jsonrpc_method p obj)

  unfoldable pub parsed_request : Proxy J → NetDataObj → Option J → Bool × Proxy J
  unfolding refuse id_request
  parsed_request p req none = refuse p req parse_error (pos 0)
  parsed_request p req (some obj) = id_request p req obj (get_jsonrpc_id obj)

  -- The result is true for the return code 0: the task now owns the request.
  unfoldable pub json_process_request : Proxy J → NetDataObj → Bool × Proxy J
  unfolding refuse parsed_request is_batch
  json_process_request p req =
      if is_batch req.data_buffer
      then refuse p req invalid_req (pos 0)
      else if not (json.checker req.data_buffer)
      then refuse p req parse_error (pos 0)
      else parsed_request p req (json.tokener_parse req.data_buffer)

  unfoldable pub respond_with : Proxy J → Option (ApiTaskObj J) → Bool × Proxy J
  unfolding json_send_new_result
  respond_with p none = (false, p)
  respond_with p (some t) =
      let p' = json_send_new_result p t in
      (true, record p' { total_res_sent = p'.total_res_sent + 1 })

  unfoldable pub response_for : Proxy J → Option ℕ → Bool × Proxy J
  unfolding respond_with
  response_for p none = (false, p)
  response_for p (some ident) =
      let (t, c) = chain_remove_by_ident identify_task p.req_resp_chain ident in
      respond_with (record p { req_resp_chain = c }) t

  -- One callback of the response thread.
  unfoldable pub json_process_rsponse : Proxy J → Bool × Proxy J
  unfolding response_for
  json_process_rsponse p =
      let (ident, c) = chain_get p.resp_chain in response_for (record p { resp_chain = c }) ident
