-- ===== src/RpcMgr/Polling.antt =====
-- lib/lib-jsonrpc-tcp/src/ADJsonRpcMgr.cpp: a client triggers a task and polls its status.
use Prim.Native.String.{String}
use jsonrpc_tcp_srv.Prelude.{ℕ, some, pos, ◌≡◌, refl, ap, sym, subst, ◌∙◌}
use jsonrpc_tcp_srv.RpcResult.{
  RpcSrvResult, success, in_prog, code_of, not_started, convert_server_result_to_string,
}
use jsonrpc_tcp_srv.StringProcessor.{find_single_param}
use jsonrpc_tcp_srv.StringProcessor.Numbers.{decimal, atoi-decimal}
use jsonrpc_tcp_srv.Proxy.{JsonDataCommObj}
use jsonrpc_tcp_srv.TaskWorker.{preserve, push_task, get_task_status}
use jsonrpc_tcp_srv.TaskWorker.Calls.{IsWell, next_id}
use jsonrpc_tcp_srv.TaskWorker.Polling.{get_task_status-push_task}
use jsonrpc_tcp_srv.RpcMgr.{
  RpcmgrCmd, get_task_sts, trigger_datasave, trigger_factory_store, trigger_factory_restore,
  trigger_run, code_of_cmd, cmd_of, RpcSrvReq, act_read, act_write, task_sts_packet, string_answer,
  int_answer, MgrJson, RpcMgr, Packet,
}
use jsonrpc_tcp_srv.RpcMgr.Handling.{handled-own}
use jsonrpc_tcp_srv.RpcMgr.Decode.{
  param_size, my_map_json_to_binary, json_to_bin_get_task_sts, json_to_bin_trigger, int_param,
  with_param, prepared,
}
use jsonrpc_tcp_srv.RpcMgr.Packets.{answered, task_id_of, with_task_id}
use jsonrpc_tcp_srv.RpcMgr.Process.{my_process_work, process_get_task_status, process_trigger}
use jsonrpc_tcp_srv.RpcMgr.Encode.{
  my_map_binary_to_json, with_string, with_int, prepare_string, prepare_int, status_text, printed,
}
use jsonrpc_tcp_srv.RpcMgr.Requests.{handled, create_req_obj, Chance}

-- The commands that push a task whose result is kept for the client.
pub data IsTrigger : RpcmgrCmd → Type 0 where
  save : IsTrigger trigger_datasave
  factory_store : IsTrigger trigger_factory_store
  factory_restore : IsTrigger trigger_factory_restore
  run : IsTrigger trigger_run

module _ {J : Type 0} (json : MgrJson J) where
  -- The answer to a request that carries a string or an integer.
  abbrev pub answered_string : JsonDataCommObj J → String → JsonDataCommObj J
  answered_string d text = record d {
    rpc_code = success;
    custom_result_string = text;
    json_resp_obj = some (json.new_object (string_answer "Success" "taskStatus" text));
  }

  abbrev pub answered_id : JsonDataCommObj J → ℕ → JsonDataCommObj J
  answered_id d id = record d {
    rpc_code = in_prog;
    custom_result_string = decimal id;
    json_resp_obj = some (json.new_object (int_answer "InProgress" "taskId" (pos id)));
  }

-- The packets of a poll and of a trigger.
abbrev poll_req : {J V : Type 0} → JsonDataCommObj J → RpcSrvResult → ℕ → String → RpcSrvReq V
poll_req d result id text = record {
  client_id = d.req_id;
  action = act_read;
  cmd = pos 0;
  result = result;
  data_ref = task_sts_packet (pos id) text;
}

abbrev trigger_req : {J V : Type 0} → JsonDataCommObj J → RpcmgrCmd → RpcSrvResult → ℕ → RpcSrvReq V
trigger_req d cmd result id = record {
  client_id = d.req_id;
  action = act_write;
  cmd = pos (code_of_cmd cmd);
  result = result;
  data_ref = task_sts_packet (pos id) "";
}

module _ {J : Type 0} (json : MgrJson J) where
  decode-trigger :
      (V : Type 0) {cmd : RpcmgrCmd} (tmp : ℕ) (d : JsonDataCommObj J)
      → IsTrigger cmd
      → my_map_json_to_binary {V = V} json tmp cmd (create_req_obj d)
        ≡ (pos 0, record { comm = d; req = trigger_req d cmd not_started 0 })
  unfolding create_req_obj my_map_json_to_binary json_to_bin_trigger prepared
  decode-trigger V tmp d save = refl
  decode-trigger V tmp d factory_store = refl
  decode-trigger V tmp d factory_restore = refl
  decode-trigger V tmp d run = refl

  encode-trigger :
      (V : Type 0) {cmd : RpcmgrCmd} (d : JsonDataCommObj J) (id : ℕ)
      → IsTrigger cmd
      → my_map_binary_to_json {V = V} json cmd
          (record { comm = d; req = trigger_req d cmd in_prog id })
        ≡ answered_id json d id
  unfolding my_map_binary_to_json with_int prepare_int printed convert_server_result_to_string
      code_of task_id_of
  encode-trigger V d id save = refl
  encode-trigger V d id factory_store = refl
  encode-trigger V d id factory_restore = refl
  encode-trigger V d id run = refl

module _ {J V S : Type 0} where
  work-trigger :
      {cmd : RpcmgrCmd} (x : Chance) (m : RpcMgr J V S) (d : JsonDataCommObj J) (id : ℕ)
      → IsTrigger cmd
      → (push_task m.task_worker (code_of_cmd cmd) (task_sts_packet (pos 0) "") preserve).0
        ≡ some id
      → my_process_work x.looks x.start cmd m
          (record { comm = d; req = trigger_req d cmd not_started 0 })
        ≡ (
          pos 0,
          record { comm = d; req = trigger_req d cmd in_prog id },
          record m {
            task_worker =
                (push_task m.task_worker (code_of_cmd cmd) (task_sts_packet (pos 0) "") preserve).1;
          },
        )
  unfolding my_process_work process_trigger answered with_task_id
  work-trigger x m d id save got = rw (got, process_trigger) refl
  work-trigger x m d id factory_store got = rw (got, process_trigger) refl
  work-trigger x m d id factory_restore got = rw (got, process_trigger) refl
  work-trigger x m d id run got = rw (got, process_trigger) refl

module _ {J V S : Type 0} (json : MgrJson J) where
  -- A poll answers what the task worker says of the task.
  pub handled-poll :
      (x : Chance) (m : RpcMgr J V S) (d : JsonDataCommObj J) (id : ℕ)
      → cmd_of d.cmd_index ≡ some get_task_sts
      → find_single_param json.params d.socket_data "taskId" param_size ≡ some (decimal id)
      → let (sts, w) = get_task_status m.task_worker (pos id) in
        handled json x m d ≡ (
          answered_string json d (convert_server_result_to_string sts),
          record m { task_worker = w },
        )
  unfolding create_req_obj my_map_json_to_binary json_to_bin_get_task_sts int_param with_param
      prepared code_of_cmd my_process_work process_get_task_status answered task_id_of
      my_map_binary_to_json with_string prepare_string status_text convert_server_result_to_string
      code_of find_single_param
  handled-poll x m d id is given =
      let (sts, w) = get_task_status m.task_worker (pos id) in
      handled-own json x m (record m { task_worker = w }) d get_task_sts (pos 0)
        (poll_req d not_started id "") (poll_req d success id (convert_server_result_to_string sts))
        is (rw (given, atoi-decimal id) refl) refl

  pub handled-trigger :
      {cmd : RpcmgrCmd} (x : Chance) (m : RpcMgr J V S) (d : JsonDataCommObj J)
      → IsTrigger cmd
      → IsWell m.task_worker
      → cmd_of d.cmd_index ≡ some cmd
      → handled json x m d ≡ (
        answered_id json d (next_id m.task_worker),
        record m {
          task_worker =
              (push_task m.task_worker (code_of_cmd cmd) (task_sts_packet (pos 0) "") preserve).1;
        },
      )
  handled-trigger {cmd} x m d t h is =
      let packet : Packet V = task_sts_packet (pos 0) "" in
      let got = (get_task_status-push_task m.task_worker (code_of_cmd cmd) packet preserve h).1 in
      let m' : RpcMgr J V S = record m {
        task_worker = (push_task m.task_worker (code_of_cmd cmd) packet preserve).1;
      } in
      let id = next_id m.task_worker in
      handled-own json x m m' d cmd (pos 0) (trigger_req d cmd not_started 0)
        (trigger_req d cmd in_prog id) is (decode-trigger json V x.tmp d t)
        (work-trigger x m d id t got)
      ∙ ap (λ a. (a, m')) (encode-trigger json V d id t)

  -- On a manager whose task worker is well formed, a request that triggers a save, a factory store, a
  -- factory restore or a run is answered "InProgress" with the worker's next id; and a request for the
  -- status of the task whose id is the text of that answer is answered "Success" with the status
  -- "InProgress", and changes nothing.
  pub poll-trigger :
      {cmd : RpcmgrCmd} (x x' : Chance) (m : RpcMgr J V S) (d d' : JsonDataCommObj J)
      → IsTrigger cmd
      → IsWell m.task_worker
      → cmd_of d.cmd_index ≡ some cmd
      → cmd_of d'.cmd_index ≡ some get_task_sts
      → find_single_param json.params d'.socket_data "taskId" param_size
        ≡ some (handled json x m d).0.custom_result_string
      → let (answer, m') = handled json x m d in
        (answer ≡ answered_id json d (next_id m.task_worker))
        × (handled json x' m' d' ≡ (answered_string json d' "InProgress", m'))
  unfolding convert_server_result_to_string code_of
  poll-trigger {cmd} x x' m d d' t h is is' given =
      let packet : Packet V = task_sts_packet (pos 0) "" in
      let polled =
        (get_task_status-push_task m.task_worker (code_of_cmd cmd) packet preserve h).2 in
      let m' : RpcMgr J V S = record m {
        task_worker = (push_task m.task_worker (code_of_cmd cmd) packet preserve).1;
      } in
      let id = next_id m.task_worker in
      let triggered = handled-trigger x m d t h is in
      let text : find_single_param json.params d'.socket_data "taskId" param_size
          ≡ some (decimal id) =
        given ∙ ap (λ r. some r.0.custom_result_string) triggered in
      let answer =
        handled-poll x' m' d' id is' text
        ∙ ap
            (λ r. (
              answered_string json d' (convert_server_result_to_string r.0),
              record m' { task_worker = r.1 },
            ))
            polled in
      subst
        (λ r.
          (r.0 ≡ answered_id json d id)
          × (handled json x' r.1 d' ≡ (answered_string json d' "InProgress", r.1)))
        (sym triggered) (refl, answer)
