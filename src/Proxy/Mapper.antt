-- ===== src/Proxy/Mapper.antt =====
-- lib/lib-jsonrpc-tcp/src/ADJsonRpcMapper.cpp: the callback of the mapper's thread, from the task that it
-- took to the reply that it schedules.
use jsonrpc_tcp_srv.Prelude.{
  ℕ, Option, none, some, if◌then◌else◌, update_first, pos, minus_one, ◌==ℤ◌,
}
use jsonrpc_tcp_srv.RpcResult.{not_started}
use jsonrpc_tcp_srv.Proxy.{
  unknown, ApiTaskObj, JsonDataCommObj, Consumer, Proxy, identify_task, json_send_response,
}

module _ {J : Type 0} (consumer : Consumer J) where
  pub data_obj_of : ApiTaskObj J → JsonDataCommObj J
  data_obj_of t = record {
    req_id = t.req_id;
    cmd_index = t.rpc_method.method_index;
    mapper_result = unknown;
    rpc_code = not_started;
    worker_result = minus_one;
    socket_data = t.net_data.data_buffer;
    json_resp_obj = t.json_resp_obj;
    custom_result_string = t.custom_result_string;
    cltport = t.net_data.port;
    ip = t.net_data.ip;
    sock_id = t.net_data.cltid;
    sock_descr = t.net_data.sock_descriptor;
  }

  -- The three calls; the other two only after the first returned 0.
  pub run_consumer : JsonDataCommObj J → JsonDataCommObj J
  run_consumer d =
      let (code, d') = consumer.json_to_binary d in
      if code ==ℤ pos 0 then consumer.binary_to_json (consumer.work d') else d'

  -- What the mapper writes back into its task; `custom_result_string` points into the task.
  unfoldable pub mapped : ApiTaskObj J → ApiTaskObj J
  unfolding data_obj_of run_consumer
  mapped t =
      let d = run_consumer (data_obj_of t) in
      record t {
        task_result = d.mapper_result;
        rpc_code = d.rpc_code;
        json_resp_obj = d.json_resp_obj;
        custom_result_string = d.custom_result_string;
      }

  unfoldable pub mapper_done : Proxy J → Option ℕ → Proxy J
  unfolding mapped json_send_response
  mapper_done p none = p
  mapper_done p (some ident) =
      let p' = record p {
        req_resp_chain = record p.req_resp_chain {
          items = update_first (identify_task ident) mapped p.req_resp_chain.items;
        };
        mapping = none;
      } in
      (json_send_response p' ident).1

  -- The rest of the callback.
  unfoldable pub mapper_finish : Proxy J → Proxy J
  unfolding mapper_done
  mapper_finish p = mapper_done p p.mapping
