-- ===== src/RpcMgr/Handling.antt =====
-- lib/lib-jsonrpc-tcp/src/ADJsonRpcMgr.cpp: what the three calls of a request do together.
use jsonrpc_tcp_srv.Prelude.{
  ℕ, ◌+◌, Bool, List, [], ◌∷◌, Option, some, if◌then◌else◌, ℤ, pos, ◌==ℤ◌, All, find_first,
  Bool-cases, Option-cases, ◌≡◌, refl, ap, sym, subst, ◌∙◌, ◌⊎◌, inl, inr, arith,
}
use jsonrpc_tcp_srv.Proxy.{JsonDataCommObj, invalid_param}
use jsonrpc_tcp_srv.TaskWorker.{push_task, WorkCmdAfterDone, preserve, delete}
use jsonrpc_tcp_srv.RpcMgr.{
  RpcmgrCmd, get_task_sts, get_rpc_srv_version, trigger_datasave, get_settings_sts,
  shutdown_service, reset_task_sts, get_ready_sts, get_debug_log, set_debug_log,
  trigger_factory_store, trigger_factory_restore, event_subscribe, event_unsubscribe, event_notify,
  event_process, trigger_run, get_devop_state, set_devop_state, get_mw_byte, set_mw_byte,
  get_mw_word, set_mw_word, get_mw_dword, set_mw_dword, MgrJson, RequestObj, RpcMgr, Work, done,
  push, RpcHandler, cmd_of, cmd_end, get_cmn_rpc_handler, task_sts_packet, code_of_cmd, RpcSrvReq,
}
use jsonrpc_tcp_srv.RpcMgr.Worker.{run_handler}
use jsonrpc_tcp_srv.RpcMgr.Packets.{answered}
use jsonrpc_tcp_srv.RpcMgr.Events.{
  on_event, process_event_subscribe, process_event_unsubscribe, process_event_notify,
  process_event_process,
}
use jsonrpc_tcp_srv.RpcMgr.Process.{
  my_process_work, process_get_task_status, process_rpc_server_version, process_trigger,
  process_shutdown_service, process_reset_task_sts, process_get_ready_status,
  process_get_debug_logging, process_set_debug_logging, debug_logging_set, process_work_cmn_rpc,
}
use jsonrpc_tcp_srv.RpcMgr.Requests.{
  handled, process_json_to_binary, json_to_binary_by, process_work, work_by, process_binary_to_json,
  binary_to_json_by, create_req_obj, Chance,
}
use jsonrpc_tcp_srv.RpcMgr.Decode.{my_map_json_to_binary}
use jsonrpc_tcp_srv.RpcMgr.Decoding.{my_map_json_to_binary-IsDecoded}
use jsonrpc_tcp_srv.RpcMgr.Encode.{my_map_binary_to_json}
use jsonrpc_tcp_srv.RpcMgr.Answers.{IsAnswered, my_map_binary_to_json-IsAnswered}

module _ {J V S : Type 0} where
  -- However its tasks are answered, the work leaves the command of the request.
  abbrev pub Keeps : ℤ → Work J V S → Type 0
  Keeps cmd (done code r s) = r.comm.cmd_index ≡ cmd
  Keeps cmd (push _ _ _ next) = (id : Option ℕ) → Keeps cmd (next id)

  -- A handler that leaves the command of the requests that it works on.
  abbrev IsLoyal : RpcHandler J V S → Type 0
  IsLoyal h = (r : RequestObj J V) (i : ℤ) (s : S) → Keeps r.comm.cmd_index (h.handle_work r i s)

  run_handler-Keeps :
      (cmd : ℤ) (w : Work J V S) (m : RpcMgr J V S)
      → Keeps cmd w
      → (run_handler m w).1.comm.cmd_index ≡ cmd
  unfolding run_handler
  run_handler-Keeps cmd (done code r s) m h = h
  run_handler-Keeps cmd (push c packet flag next) m h =
      let (id, w) = push_task m.task_worker (c + cmd_end) packet flag in
      run_handler-Keeps cmd (next id) (record m { task_worker = w }) (h id)

  pub find_first-All :
      (P : RpcHandler J V S → Type 0) (q : RpcHandler J V S → Bool) (hs : List (RpcHandler J V S))
      (h : RpcHandler J V S)
      → All P hs
      → find_first q hs ≡ some h
      → P h
  find_first-All P q [] h a e = absurd (ground arith)
  find_first-All P q (x ∷ hs) h a e = elim (Bool-cases (q x)) [
    | inl t ↦ let is : x ≡ h = ground arith in subst P is a.0
    | inr t ↦ let rest : find_first q hs ≡ some h = ground arith in find_first-All P q hs h a.1 rest
  ]

  cmn-Keeps :
      (m : RpcMgr J V S) (r : RequestObj J V)
      → All IsLoyal m.rpclist
      → (process_work_cmn_rpc m r).1.comm.cmd_index ≡ r.comm.cmd_index
  unfolding process_work_cmn_rpc get_cmn_rpc_handler
  cmn-Keeps m r loyal = elim (Option-cases (get_cmn_rpc_handler m)) [
    | inl e ↦ rw (e, process_work_cmn_rpc) refl
    | inr (h, e) ↦
        rw (e, process_work_cmn_rpc)
          (run_handler-Keeps r.comm.cmd_index (h.handle_work r r.comm.cmd_index m.service) m
            (find_first-All IsLoyal _ m.rpclist h loyal e r r.comm.cmd_index m.service))
  ]

  trigger-Keeps :
      (cmd : RpcmgrCmd) (flag : WorkCmdAfterDone) (m : RpcMgr J V S) (r : RequestObj J V)
      → (process_trigger cmd flag m r).1.comm ≡ r.comm
  unfolding process_trigger answered
  trigger-Keeps cmd flag m r =
      elim (Option-cases
        (push_task m.task_worker (code_of_cmd cmd) (task_sts_packet (pos 0) "") flag).0) [
          | inl e ↦ rw (e, process_trigger) refl
          | inr (n, e) ↦ rw (e, process_trigger) refl
        ]

  work-Keeps :
      (x : Chance) (cmd : RpcmgrCmd) (m : RpcMgr J V S) (r : RequestObj J V)
      → All IsLoyal m.rpclist
      → (my_process_work x.looks x.start cmd m r).1.comm.cmd_index ≡ r.comm.cmd_index
  unfolding my_process_work process_get_task_status process_rpc_server_version
      process_shutdown_service process_reset_task_sts process_get_ready_status
      process_get_debug_logging process_set_debug_logging debug_logging_set process_event_subscribe
      process_event_unsubscribe process_event_notify process_event_process on_event answered
  work-Keeps x get_task_sts m r loyal = refl
  work-Keeps x get_rpc_srv_version m r loyal = ground arith
  work-Keeps x trigger_datasave m r loyal =
      ap (λ c. c.cmd_index) (trigger-Keeps trigger_datasave preserve m r)
  work-Keeps x get_settings_sts m r loyal = cmn-Keeps m r loyal
  work-Keeps x shutdown_service m r loyal =
      ground (arith, trigger-Keeps shutdown_service delete m r)
  work-Keeps x reset_task_sts m r loyal = refl
  work-Keeps x get_ready_sts m r loyal = refl
  work-Keeps x get_debug_log m r loyal = refl
  work-Keeps x set_debug_log m r loyal = ground arith
  work-Keeps x trigger_factory_store m r loyal =
      ap (λ c. c.cmd_index) (trigger-Keeps trigger_factory_store preserve m r)
  work-Keeps x trigger_factory_restore m r loyal =
      ap (λ c. c.cmd_index) (trigger-Keeps trigger_factory_restore preserve m r)
  work-Keeps x event_subscribe m r loyal = ground arith
  work-Keeps x event_unsubscribe m r loyal = ground arith
  work-Keeps x event_notify m r loyal = ground arith
  work-Keeps x event_process m r loyal = ground arith
  work-Keeps x trigger_run m r loyal =
      ap (λ c. c.cmd_index) (trigger-Keeps trigger_run preserve m r)
  work-Keeps x get_devop_state m r loyal = cmn-Keeps m r loyal
  work-Keeps x set_devop_state m r loyal =
      ap (λ c. c.cmd_index) (trigger-Keeps set_devop_state preserve m r)
  work-Keeps x get_mw_byte m r loyal = cmn-Keeps m r loyal
  work-Keeps x set_mw_byte m r loyal = cmn-Keeps m r loyal
  work-Keeps x get_mw_word m r loyal = cmn-Keeps m r loyal
  work-Keeps x set_mw_word m r loyal = cmn-Keeps m r loyal
  work-Keeps x get_mw_dword m r loyal = cmn-Keeps m r loyal
  work-Keeps x set_mw_dword m r loyal = cmn-Keeps m r loyal

module _ {J V S : Type 0} (json : MgrJson J) where
  worked-IsAnswered :
      (x : Chance) (m : RpcMgr J V S) (r : RequestObj J V) (cmd : RpcmgrCmd)
      → cmd_of r.comm.cmd_index ≡ some cmd
      → All IsLoyal m.rpclist
      → IsAnswered json
          (process_binary_to_json json (process_work json x m r).2 (process_work json x m r).1).0
  unfolding process_work work_by process_binary_to_json binary_to_json_by
  worked-IsAnswered x m r cmd is loyal =
      let keeps : (process_work json x m r).1.comm.cmd_index ≡ r.comm.cmd_index =
        subst (λ o. (work_by json x o m r).1.comm.cmd_index ≡ r.comm.cmd_index) (sym is)
          (work-Keeps x cmd m r loyal) in
      subst
        (λ o.
          IsAnswered json
            (binary_to_json_by json o (process_work json x m r).2 (process_work json x m r).1).0)
        (sym (ap cmd_of keeps ∙ is))
        (my_map_binary_to_json-IsAnswered json cmd (process_work json x m r).1)

  -- What follows the first call of a request.
  abbrev rest_of : Chance → ℤ × RequestObj J V × RpcMgr J V S → JsonDataCommObj J × RpcMgr J V S
  rest_of x (code, r, m) =
      if code ==ℤ pos 0
      then process_binary_to_json json (process_work json x m r).2 (process_work json x m r).1
      else (r.comm, m)

  -- A request that is decoded and whose work keeps its data.
  pub handled-own :
      (x : Chance) (m m' : RpcMgr J V S) (d : JsonDataCommObj J) (cmd : RpcmgrCmd) (code : ℤ)
      (q q' : RpcSrvReq V)
      → cmd_of d.cmd_index ≡ some cmd
      → my_map_json_to_binary json x.tmp cmd (create_req_obj d)
        ≡ (pos 0, record { comm = d; req = q })
      → my_process_work x.looks x.start cmd m (record { comm = d; req = q })
        ≡ (code, record { comm = d; req = q' }, m')
      → handled json x m d ≡ (my_map_binary_to_json json cmd (record { comm = d; req = q' }), m')
  unfolding handled process_json_to_binary json_to_binary_by process_work work_by
      process_binary_to_json binary_to_json_by
  handled-own x m m' d cmd code q q' is decoded worked =
      let r : RequestObj J V = record { comm = d; req = q } in
      let r' : RequestObj J V = record { comm = d; req = q' } in
      let first : process_json_to_binary json x.tmp m d ≡ (pos 0, r, m) =
        subst (λ o. json_to_binary_by json x.tmp o m (create_req_obj d) ≡ (pos 0, r, m)) (sym is)
          (ap (λ t. (t.0, t.1, m)) decoded) in
      let second : process_work json x m r ≡ (code, r', m') =
        subst (λ o. work_by json x o m r ≡ (code, r', m')) (sym is) worked in
      let third : process_binary_to_json json m' r' ≡ (my_map_binary_to_json json cmd r', m') =
        subst (λ o. binary_to_json_by json o m' r' ≡ (my_map_binary_to_json json cmd r', m'))
          (sym is) refl in
      ap (rest_of x) first ∙ ap (λ t. process_binary_to_json json t.2 t.1) second ∙ third

  -- A request for a command of the manager's own, where the handlers leave the command of what they work
  -- on, is either refused as one with an invalid parameter, and then it has no answer and the manager is
  -- what it was, or it has an answer whose "return" is the string of the result code.
  pub handled-IsAnswered :
      (x : Chance) (m : RpcMgr J V S) (d : JsonDataCommObj J) (cmd : RpcmgrCmd)
      → cmd_of d.cmd_index ≡ some cmd
      → All IsLoyal m.rpclist
      → ((handled json x m d).0 ≡ record d { mapper_result = invalid_param })
          × ((handled json x m d).1 ≡ m)
        ⊎ IsAnswered json (handled json x m d).0
  unfolding handled process_json_to_binary json_to_binary_by create_req_obj
  handled-IsAnswered x m d cmd is loyal =
      let decoded : ℤ × RequestObj J V = my_map_json_to_binary json x.tmp cmd (create_req_obj d) in
      let by_cmd : process_json_to_binary json x.tmp m d ≡ (decoded.0, decoded.1, m) =
        subst (λ o. json_to_binary_by json x.tmp o m (create_req_obj d) ≡ (decoded.0, decoded.1, m))
          (sym is) refl in
      subst
        (λ t.
          ((rest_of x t).0 ≡ record d { mapper_result = invalid_param }) × ((rest_of x t).1 ≡ m)
          ⊎ IsAnswered json (rest_of x t).0)
        (sym by_cmd)
        (elim (my_map_json_to_binary-IsDecoded {V = V} json x.tmp cmd (create_req_obj d)) [
          | inl (e, c) ↦ rw e (
              inr (worked-IsAnswered x m decoded.1 cmd (ap (λ k. cmd_of k.cmd_index) c ∙ is) loyal))
          | inr (e, c) ↦ rw e (inl (c, refl))
        ])
