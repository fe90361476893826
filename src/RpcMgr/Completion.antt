-- ===== src/RpcMgr/Completion.antt =====
-- lib/lib-jsonrpc-tcp/src/ADJsonRpcMgr.cpp: what a client reads of a task that the worker has run.
use jsonrpc_tcp_srv.Prelude.{some, pos, ◌≡◌, refl, ap, sym, subst, ◌∙◌}
use jsonrpc_tcp_srv.RpcResult.{code_of, convert_server_result_to_string}
use jsonrpc_tcp_srv.StringProcessor.{find_single_param}
use jsonrpc_tcp_srv.StringProcessor.Numbers.{decimal}
use jsonrpc_tcp_srv.Proxy.{JsonDataCommObj}
use jsonrpc_tcp_srv.TaskWorker.{WorkCmdTask, preserve, done_action_of, finish_work, get_task_status}
use jsonrpc_tcp_srv.TaskWorker.Polling.{get_task_status-finish_work}
use jsonrpc_tcp_srv.RpcMgr.{get_task_sts, cmd_of, Packet, MgrJson, RpcMgr}
use jsonrpc_tcp_srv.RpcMgr.Decode.{param_size}
use jsonrpc_tcp_srv.RpcMgr.Worker.{run_work, task_worker_events, worker_ends, worker_ends_of}
use jsonrpc_tcp_srv.RpcMgr.Requests.{handled, Chance}
use jsonrpc_tcp_srv.RpcMgr.Polling.{answered_string, handled-poll}
use jsonrpc_tcp_srv.RpcMgr.Soundness.{IsSound, Stays-IsSound, run_work-Stays}

module _ {J V S : Type 0} (json : MgrJson J) where
  -- When the worker's thread has run a task whose result is kept, on a manager that is sound, the first
  -- request for its status is answered "Success" with the string of the result that `run_work` returned, and
  -- the second with "taskIDNotFound".
  pub poll-worker_ends :
      (x x' : Chance) (m : RpcMgr J V S) (t : WorkCmdTask (Packet V)) (d d' : JsonDataCommObj J)
      → IsSound m
      → m.task_worker.running ≡ some t
      → done_action_of t ≡ preserve
      → cmd_of d.cmd_index ≡ some get_task_sts
      → cmd_of d'.cmd_index ≡ some get_task_sts
      → find_single_param json.params d.socket_data "taskId" param_size ≡ some (decimal t.task_id)
      → find_single_param json.params d'.socket_data "taskId" param_size ≡ some (decimal t.task_id)
      → let result = (run_work m t.command t.work_data).0 in
        let polled = handled json x (worker_ends m) d in
        (polled.0 ≡ answered_string json d (convert_server_result_to_string result))
        × ((handled json x' polled.1 d').0 ≡ answered_string json d' "taskIDNotFound")
  unfolding worker_ends worker_ends_of convert_server_result_to_string code_of
  poll-worker_ends x x' m t d d' h e kept is is' text text' =
      let (stays, ended) = run_work-Stays m t.command t.work_data h.final in
      let (result, m') = run_work m t.command t.work_data in
      let after : RpcMgr J V S = record m' {
        task_worker = (finish_work m'.task_worker result).1;
        event_mgr = task_worker_events m'.event_mgr (finish_work m'.task_worker result).0;
      } in
      let is_after : worker_ends m ≡ after = subst (λ o. worker_ends_of m o ≡ after) (sym e) refl in
      let running : m'.task_worker.running ≡ some t = ap (λ w. w.running) stays.worker ∙ e in
      let (events, first, second) =
        get_task_status-finish_work m'.task_worker t result (Stays-IsSound m m' stays h).well
          running kept ended in
      let later : RpcMgr J V S = record after {
        task_worker = (get_task_status after.task_worker (pos t.task_id)).1;
      } in
      let answer =
        handled-poll json x after d t.task_id is text
        ∙ ap (λ r. (answered_string json d (convert_server_result_to_string r), later)) first in
      let answer' =
        ap (λ r. r.0) (handled-poll json x' later d' t.task_id is' text')
        ∙ ap (λ r. answered_string json d' (convert_server_result_to_string r.0)) second in
      let known : handled json x (worker_ends m) d
          ≡ (answered_string json d (convert_server_result_to_string result), later) =
        ap (λ k. handled json x k d) is_after ∙ answer in
      (ap (λ r. r.0) known, ap (λ r. (handled json x' r.1 d').0) known ∙ answer')
