-- ===== src/Proxy/Tests.antt =====
-- The proxy's properties with one method, and a json-c that knows one request.
use text.Mathlib.Text.{◌==◌ as str_eq}
use jsonrpc_tcp_srv.Prelude.{
  ℕ, ◌+◌, ◌==◌, Bool, true, List, [], ◌∷◌, none, some, if◌then◌else◌, count, ℤ, pos, ◌≡◌, refl,
}
use jsonrpc_tcp_srv.Chain.{
  new_chain, attach_helper, disable_auto_remove, chain_put, chain_get, chain_add,
  chain_generate_ident, chain_remove_by_ident,
}
use jsonrpc_tcp_srv.NetServer.{NetDataObj, new_net_server}
use jsonrpc_tcp_srv.Proxy.{
  JsonC, Consumer, Proxy, RpcCommand, new_proxy, attach_rpc_method, is_this_method_registered,
  rpc_call_notification, mapper_take,
}
use jsonrpc_tcp_srv.Proxy.Requests.{
  get_jsonrpc_id, get_jsonrpc_method, json_process_rsponse, json_process_request,
  json_send_error_response_string,
}
use jsonrpc_tcp_srv.Proxy.Mapper.{mapper_finish}
use jsonrpc_tcp_srv.Proxy.Branches.{IsLive, IsPrinting}
use jsonrpc_tcp_srv.Proxy.Replies.{task_addresses}
use jsonrpc_tcp_srv.Proxy.Flow.{IsFlowing, idents}
use jsonrpc_tcp_srv.Proxy.Pipeline.{
  Step, request, take_task, finish_task, respond, register, run, step, requested, replied_to,
  run-IsFlowing, run-IsQuiet,
}

-- JSON values are numbers: every text parses to the number of its id, with the method "m".
abbrev small_json : JsonC ℕ
small_json = record {
  checker = λ b. true;
  tokener_parse = λ b. some 1;
  get_string = λ j name. if str_eq name "access" then none else some (b'm' ∷ []);
  get_int = λ j name. pos j;
  to_json_string = λ r. some (b'{' ∷ b'}' ∷ []);
}

small_json-IsPrinting : IsPrinting small_json
small_json-IsPrinting = λ r. (b'{' ∷ b'}' ∷ [], refl)

abbrev echo : Consumer ℕ
echo = record {
  json_to_binary = λ d. (pos 0, d);
  work = λ d. d;
  binary_to_json = λ d. record d { json_resp_obj = some 1 };
}

abbrev batch : NetDataObj
batch = record {
  ident = 1;
  sock_descriptor = 5;
  port = pos 4000;
  ip = "10.0.0.2";
  cltid = pos 2;
  data_buffer = b'[' ∷ b']' ∷ [];
}

abbrev call : NetDataObj
call = record batch { data_buffer = b'{' ∷ b'}' ∷ [] }

abbrev of_client : ℕ × ℤ → Bool
of_client a = a.0 == 5

abbrev some_steps : List Step
some_steps =
    register (b'm' ∷ []) (pos 3)
    ∷ request batch
    ∷ request call
    ∷ take_task
    ∷ finish_task
    ∷ respond
    ∷ []

run-IsFlowing_example :
    let p = run small_json echo new_proxy some_steps in
    IsFlowing p
    × (count of_client (replied_to p) + count of_client (task_addresses p.req_resp_chain.items)
        ≡ count of_client (requested some_steps))
run-IsFlowing_example = run-IsFlowing small_json echo some_steps of_client small_json-IsPrinting

new_proxy-IsLive : IsLive (new_proxy {J = ℕ})
unfolding new_proxy new_net_server new_chain attach_helper disable_auto_remove
new_proxy-IsLive = record {
  tasks_live = refl;
  tasks_attached = refl;
  resp_live = refl;
  req_live = refl;
  server_live = refl;
}

abbrev method_m : RpcCommand
method_m = record { method = b'm' ∷ []; method_index = pos 3 }

abbrev named : Proxy ℕ
named = record (new_proxy {J = ℕ}) { rpc_call_list = method_m ∷ [] }

run-IsQuiet_example :
    (idents (run small_json echo new_proxy some_steps).req_resp_chain.items ≡ [])
    × (count of_client (replied_to (run small_json echo new_proxy some_steps))
        ≡ count of_client (requested some_steps))
unfolding run step new_proxy new_net_server new_chain attach_helper disable_auto_remove
    attach_rpc_method json_process_request json_process_rsponse mapper_take mapper_finish chain_put
    chain_get chain_add get_jsonrpc_id get_jsonrpc_method is_this_method_registered
    json_send_error_response_string chain_generate_ident rpc_call_notification chain_remove_by_ident
run-IsQuiet_example =
    run-IsQuiet small_json echo some_steps of_client small_json-IsPrinting (refl, refl, refl)
