-- ===== src/Proxy/Branches.antt =====
-- What `json_process_request` of ADJsonRpcProxy makes of a request.
use jsonrpc_tcp_srv.Prelude.{
  ◌+◌, true, false, not, none, some, if◌then◌else◌, ℤ, pos, ◌≡◌, ◌⊎◌, arith, Bool-cases,
  Option-cases, inl, inr,
}
use jsonrpc_tcp_srv.Framer.{Bytes}
use jsonrpc_tcp_srv.RpcResult.{not_started}
use jsonrpc_tcp_srv.Chain.{chain_put, chain_add, chain_generate_ident}
use jsonrpc_tcp_srv.NetServer.{NetDataObj}
use jsonrpc_tcp_srv.Proxy.{
  Proxy, JsonC, Reply, ApiTaskObj, RpcCommand, JsonRpcErrType, parse_error, invalid_req,
  method_not_found, task_not_started, rpc_call_notification, is_batch,
}
use jsonrpc_tcp_srv.Proxy.Requests.{
  refuse, enqueue, method_request, id_request, parsed_request, json_process_request, get_jsonrpc_id,
  get_jsonrpc_method, get_jsonrpc_acc, json_send_error_response_string,
}

module _ {J : Type 0} where
  -- The chains are live.
  pub record IsLive (p : Proxy J) : Type 0 where
    pub tasks_live : p.req_resp_chain.init_flag ≡ true
    pub tasks_attached : p.req_resp_chain.attached ≡ true
    pub resp_live : p.resp_chain.init_flag ≡ true
    pub req_live : p.req_chain.init_flag ≡ true
    pub server_live : p.server_socket.response_chain.init_flag ≡ true

module _ {J : Type 0} (json : JsonC J) where
  -- json-c turns every reply into text.
  abbrev pub IsPrinting : Type 0
  IsPrinting = (r : Reply J) → (b : Bytes) × (json.to_json_string r ≡ some b)

  -- The new task of a request.
  unfoldable pub task_of : Proxy J → NetDataObj → J → ℤ → RpcCommand → ApiTaskObj J
  task_of p req obj id method = record {
    ident = p.req_resp_chain.ident_generator + 1;
    req_id = id;
    net_data = req;
    rpc_method = method;
    access = get_jsonrpc_acc json obj;
    task_result = task_not_started;
    rpc_code = not_started;
    json_resp_obj = none;
    custom_result_string = "";
  }

  unfoldable pub enqueued : Proxy J → NetDataObj → J → ℤ → RpcCommand → Proxy J
  enqueued p req obj id method = record p {
    req_resp_chain =
        chain_add
          (record p.req_resp_chain { ident_generator = p.req_resp_chain.ident_generator + 1 })
          (task_of p req obj id method);
    req_chain = chain_add p.req_chain (p.req_resp_chain.ident_generator + 1);
    total_req_received = p.total_req_received + 1;
  }

  enqueue-enqueued :
      (p : Proxy J) (req : NetDataObj) (obj : J) (id : ℤ) (method : RpcCommand)
      → IsLive p
      → enqueue json p req obj id method ≡ (true, enqueued p req obj id method)
  unfolding enqueue enqueued task_of rpc_call_notification chain_put chain_generate_ident
  enqueue-enqueued p req obj id method h = ground arith

  -- What a request is answered with at once, or the method and the id that it is queued with.
  unfoldable pub verdict : Proxy J → NetDataObj → (JsonRpcErrType × ℤ) ⊎ (J × ℤ × RpcCommand)
  verdict p req =
      if is_batch req.data_buffer
      then inl (invalid_req, pos 0)
      else if not (json.checker req.data_buffer)
      then inl (parse_error, pos 0)
      else elim (json.tokener_parse req.data_buffer) [
        | none ↦ inl (parse_error, pos 0)
        | some obj ↦ elim (get_jsonrpc_id json obj) [
          | none ↦ inl (invalid_req, pos 0)
          | some id ↦ elim (get_jsonrpc_method json p obj) [
            | none ↦ inl (method_not_found, id)
            | some method ↦ inr (obj, id, method)
          ]
        ]
      ]

  -- On live chains a request is refused with the error that its text calls for, and then no task is
  -- left, or it is queued for the mapper as the last task, with its id and its method.
  pub json_process_request-verdict :
      (p : Proxy J) (req : NetDataObj)
      → IsLive p
      → json_process_request json p req ≡ elim (verdict p req) [
        | inl (err, id) ↦
            (false, json_send_error_response_string json p id req.sock_descriptor err req.cltid)
        | inr (obj, id, method) ↦ (true, enqueued p req obj id method)
      ]
  unfolding json_process_request parsed_request id_request method_request refuse verdict
  json_process_request-verdict p req h = elim (Bool-cases (is_batch req.data_buffer)) [
    | inl a ↦ ground arith
    | inr a ↦ elim (Bool-cases (json.checker req.data_buffer)) [
      | inr b ↦ ground arith
      | inl b ↦ elim (Option-cases (json.tokener_parse req.data_buffer)) [
        | inl c ↦ ground arith
        | inr (obj, c) ↦ elim (Option-cases (get_jsonrpc_id json obj)) [
          | inl d ↦ ground arith
          | inr (id, d) ↦ elim (Option-cases (get_jsonrpc_method json p obj)) [
            | inl e ↦ ground arith
            | inr (method, e) ↦ ground (arith, enqueue-enqueued p req obj id method h)
          ]
        ]
      ]
    ]
  ]
