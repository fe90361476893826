-- ===== src/RpcMgr/Threads.antt =====
-- lib/lib-jsonrpc-tcp/src/ADJsonRpcMgr.cpp: the requests, the worker's thread and the notifier's rounds, in
-- whatever order they come.
use jsonrpc_tcp_srv.Prelude.{
  ℕ, Bool, List, [], ◌∷◌, Option, none, some, ℤ, pos, ◌==ℤ◌, All, All-append, Bool-cases, inl, inr,
}
use jsonrpc_tcp_srv.Proxy.{JsonDataCommObj}
use jsonrpc_tcp_srv.TaskWorker.Calls.{new_task_worker-IsWell}
use jsonrpc_tcp_srv.EvntMgr.{Round, update_failure_counts}
use jsonrpc_tcp_srv.EvntMgr.Subscriptions.{attached_receiver-IsTidyMgr, count-IsTidyMgr}
use jsonrpc_tcp_srv.RpcMgr.{
  RpcmgrCmd, MgrJson, RequestObj, RpcMgr, RpcHandler, cmd_of, new_rpc_mgr, attach_rpc,
}
use jsonrpc_tcp_srv.RpcMgr.Worker.{WorkerStep, worker_steps}
use jsonrpc_tcp_srv.RpcMgr.Requests.{
  handled, process_json_to_binary, json_to_binary_by, map_json_to_binary, process_work, work_by,
  map_work, process_binary_to_json, binary_to_json_by, map_binary_to_json, create_req_obj, Chance,
}
use jsonrpc_tcp_srv.RpcMgr.Soundness.{IsFinal, IsSound, worker_steps-IsSound, run_handler-IsSound}
use jsonrpc_tcp_srv.RpcMgr.Works.{my_process_work-IsSound}

-- What the manager's threads do: a request, the worker's thread, and the counts of a round of
-- notifications.
pub data SysStep (J : Type 0) : Type 0 where
  request : Chance → JsonDataCommObj J → SysStep J
  worker : WorkerStep → SysStep J
  count : Round → SysStep J

module _ {J V S : Type 0} where
  served : (m : RpcMgr J V S) (s : S) → IsSound m → IsSound (record m { service = s })
  served m s h = record { well = h.well; tidy = h.tidy; final = h.final }

module _ {J V S : Type 0} (json : MgrJson J) where
  json_to_binary-IsSound :
      (m : RpcMgr J V S) (o : Option (RpcHandler J V S)) (r : RequestObj J V)
      → IsSound m
      → IsSound (map_json_to_binary json m o r).2
  unfolding map_json_to_binary
  json_to_binary-IsSound m none r h = h
  json_to_binary-IsSound m (some k) r h = served m _ h

  work-IsSound :
      (m : RpcMgr J V S) (o : Option (RpcHandler J V S)) (r : RequestObj J V)
      → IsSound m
      → IsSound (map_work json m o r).2
  unfolding map_work
  work-IsSound m none r h = h
  work-IsSound m (some k) r h = run_handler-IsSound (k.handle_work r k.index m.service) m h

  binary_to_json-IsSound :
      (m : RpcMgr J V S) (o : Option (RpcHandler J V S)) (r : RequestObj J V)
      → IsSound m
      → IsSound (map_binary_to_json json m o r).1
  unfolding map_binary_to_json
  binary_to_json-IsSound m none r h = h
  binary_to_json-IsSound m (some k) r h = served m _ h

  first-IsSound :
      (tmp : ℕ) (o : Option RpcmgrCmd) (m : RpcMgr J V S) (r : RequestObj J V)
      → IsSound m
      → IsSound (json_to_binary_by json tmp o m r).2
  unfolding json_to_binary_by
  first-IsSound tmp none m r h = json_to_binary-IsSound m _ r h
  first-IsSound tmp (some cmd) m r h = h

  second-IsSound :
      (x : Chance) (o : Option RpcmgrCmd) (m : RpcMgr J V S) (r : RequestObj J V)
      → IsSound m
      → IsSound (work_by json x o m r).2
  unfolding work_by
  second-IsSound x none m r h = work-IsSound m _ r h
  second-IsSound x (some cmd) m r h = my_process_work-IsSound x.looks x.start cmd m r h

  third-IsSound :
      (o : Option RpcmgrCmd) (m : RpcMgr J V S) (r : RequestObj J V)
      → IsSound m
      → IsSound (binary_to_json_by json o m r).1
  unfolding binary_to_json_by
  third-IsSound none m r h = binary_to_json-IsSound m _ r h
  third-IsSound (some cmd) m r h = h

  handled-IsSound :
      (x : Chance) (m : RpcMgr J V S) (d : JsonDataCommObj J)
      → IsSound m
      → IsSound (handled json x m d).1
  unfolding handled process_json_to_binary process_work process_binary_to_json
  handled-IsSound x m d h =
      let first = process_json_to_binary json x.tmp m d in
      let h' : IsSound first.2 = first-IsSound x.tmp (cmd_of d.cmd_index) m (create_req_obj d) h in
      let second = process_work json x first.2 first.1 in
      let h'' : IsSound second.2 =
        second-IsSound x (cmd_of first.1.comm.cmd_index) first.2 first.1 h' in
      elim (Bool-cases (first.0 ==ℤ pos 0)) [
        | inl e ↦ rw e (third-IsSound (cmd_of second.1.comm.cmd_index) second.2 second.1 h'')
        | inr e ↦ rw e h'
      ]

  sys_step : RpcMgr J V S → SysStep J → RpcMgr J V S
  sys_step m (request x d) = (handled json x m d).1
  sys_step m (worker s) = worker_steps (s ∷ []) m
  sys_step m (count r) = record m { event_mgr = update_failure_counts m.event_mgr r }

  pub sys_steps : RpcMgr J V S → List (SysStep J) → RpcMgr J V S
  sys_steps m [] = m
  sys_steps m (s ∷ ss) = sys_steps (sys_step m s) ss

  sys_step-IsSound : (m : RpcMgr J V S) (s : SysStep J) → IsSound m → IsSound (sys_step m s)
  unfolding sys_step
  sys_step-IsSound m (request x d) h = handled-IsSound x m d h
  sys_step-IsSound m (worker s) h = worker_steps-IsSound (s ∷ []) m h
  sys_step-IsSound m (count r) h = record {
    well = h.well;
    tidy = count-IsTidyMgr m.event_mgr r h.tidy;
    final = h.final;
  }

  steps-IsSound : (m : RpcMgr J V S) (ss : List (SysStep J)) → IsSound m → IsSound (sys_steps m ss)
  unfolding sys_steps
  steps-IsSound m [] h = h
  steps-IsSound m (s ∷ ss) h = steps-IsSound (sys_step m s) ss (sys_step-IsSound m s h)

module _ {J V S : Type 0} where
  abbrev pub attach_rpcs : RpcMgr J V S → List (RpcHandler J V S) → RpcMgr J V S
  attach_rpcs m [] = m
  attach_rpcs m (h ∷ hs) = attach_rpcs (attach_rpc m h) hs

  attached-IsSound :
      (hs : List (RpcHandler J V S)) (m : RpcMgr J V S)
      → All IsFinal hs
      → IsSound m
      → IsSound (attach_rpcs m hs)
  unfolding attach_rpc
  attached-IsSound [] m f h = h
  attached-IsSound (k ∷ hs) m f h = attached-IsSound hs (attach_rpc m k) f.1 (record {
    well = h.well;
    tidy = h.tidy;
    final = All-append IsFinal m.rpclist (k ∷ []) h.final (f.0, tt);
  })

  new-IsSound :
      (ver : ℤ) (debuglog : Bool) (service : S)
      → IsSound {J = J} {V = V} (new_rpc_mgr ver debuglog service)
  unfolding new_rpc_mgr
  new-IsSound ver debuglog service = record {
    well = new_task_worker-IsWell;
    tidy = attached_receiver-IsTidyMgr 0;
    final = tt;
  }

module _ {J V S : Type 0} (json : MgrJson J) where
  -- A new manager with attached handlers whose asynchronous work never ends with "in progress" keeps, under
  -- any sequence of requests, steps of the worker's thread and counts of failed notifications: one open
  -- record for each task that waits or runs and no other, and no two subscriptions for the same client
  -- token, port and event.
  pub sys_steps-IsSound :
      (ver : ℤ) (debuglog : Bool) (service : S) (hs : List (RpcHandler J V S))
      (ss : List (SysStep J))
      → All IsFinal hs
      → IsSound (sys_steps json (attach_rpcs (new_rpc_mgr ver debuglog service) hs) ss)
  sys_steps-IsSound ver debuglog service hs ss f =
      steps-IsSound json _ ss (attached-IsSound hs _ f (new-IsSound ver debuglog service))
