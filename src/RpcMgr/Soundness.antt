-- ===== src/RpcMgr/Soundness.antt =====
-- lib/lib-jsonrpc-tcp/src/ADJsonRpcMgr.cpp: what the manager's threads keep, in whatever order they run.
use jsonrpc_tcp_srv.Prelude.{
  ℕ, ◌+◌, ◌-◌, false, List, [], ◌∷◌, Option, none, some, ltb, leb, ℤ, pos, All, get_elem?, zero,
  suc, length, Bool-cases, Option-cases, ◌≡◌, refl, sym, subst, inl, inr, arith,
}
use jsonrpc_tcp_srv.RpcResult.{
  RpcSrvResult, is_in_prog, code_of, success, fail, feature_unsupported,
}
use jsonrpc_tcp_srv.TaskWorker.{WorkCmdTask, push_task, begin_work, finish_work}
use jsonrpc_tcp_srv.TaskWorker.Calls.{
  IsWell, push_task-IsWell, begin_work-IsWell, finish_work-IsWell,
}
use jsonrpc_tcp_srv.EvntMgr.{notify_event, EvntMgr}
use jsonrpc_tcp_srv.EvntMgr.Subscriptions.{IsTidyMgr, notify_event-IsTidyMgr}
use jsonrpc_tcp_srv.RpcMgr.{
  RpcmgrCmd, get_task_sts, get_rpc_srv_version, trigger_datasave, get_settings_sts,
  shutdown_service, reset_task_sts, get_ready_sts, get_debug_log, set_debug_log,
  trigger_factory_store, trigger_factory_restore, event_subscribe, event_unsubscribe, event_notify,
  event_process, trigger_run, get_devop_state, set_devop_state, get_mw_byte, set_mw_byte,
  get_mw_word, set_mw_word, get_mw_dword, set_mw_dword, Packet, RpcMgr, Work, done, push,
  RpcHandler, cmd_of, cmd_end, get_cmn_rpc_handler, get_rpc_handler,
}
use jsonrpc_tcp_srv.RpcMgr.Handling.{find_first-All}
use jsonrpc_tcp_srv.RpcMgr.Worker.{
  work_async_of, cmn_rpc_handler, async_task_work, run_builtin, run_work, task_worker_events,
  worker_begins, worker_ends_of, worker_ends, run_handler, WorkerStep, begins, ends, worker_steps,
}

events-IsTidyMgr :
    (e : EvntMgr) (evs : List (ℕ × ℕ × RpcSrvResult))
    → IsTidyMgr e
    → IsTidyMgr (task_worker_events e evs)
unfolding task_worker_events
events-IsTidyMgr e [] h = h
events-IsTidyMgr e ((num, arg, arg2) ∷ evs) h =
    events-IsTidyMgr (notify_event e (pos num) (pos arg) (pos (code_of arg2))) evs
      (notify_event-IsTidyMgr e (pos num) (pos arg) (pos (code_of arg2)) h)

module _ {J V S : Type 0} where
  -- A handler whose `ProcessWorkAsync` never says that it is in progress.
  abbrev pub IsFinal : RpcHandler J V S → Type 0
  IsFinal h =
      (cmd : ℤ) (packet : Packet V) (s : S)
      → is_in_prog (h.handle_work_async cmd packet s).0 ≡ false

  -- The task worker's records agree with its tasks, and no two subscriptions are for the same
  -- client token, port and event.
  pub record IsSound (m : RpcMgr J V S) : Type 0 where
    pub well : IsWell m.task_worker
    pub tidy : IsTidyMgr m.event_mgr
    pub final : All IsFinal m.rpclist

  -- The managers agree in what their soundness is about.
  pub record Stays (m m' : RpcMgr J V S) : Type 0 where
    pub worker : m'.task_worker ≡ m.task_worker
    pub events : m'.event_mgr ≡ m.event_mgr
    pub handlers : m'.rpclist ≡ m.rpclist

  pub Stays-IsSound : (m m' : RpcMgr J V S) → Stays m m' → IsSound m → IsSound m'
  Stays-IsSound m m' k h = record {
    well = subst IsWell (sym k.worker) h.well;
    tidy = subst IsTidyMgr (sym k.events) h.tidy;
    final = subst (λ hs. All IsFinal hs) (sym k.handlers) h.final;
  }

  pub same : (m : RpcMgr J V S) → Stays m m
  same m = record { worker = refl; events = refl; handlers = refl }

  -- What a run of a task ends with.
  record Ran (m : RpcMgr J V S) (r : RpcSrvResult × RpcMgr J V S) : Type 0 where
    stays : Stays m r.1
    ended : is_in_prog r.0 ≡ false

  work_async_of-Ran :
      (m : RpcMgr J V S) (h : Option (RpcHandler J V S)) (otherwise : RpcSrvResult) (cmd : ℤ)
      (packet : Packet V)
      → is_in_prog otherwise ≡ false
      → ((k : RpcHandler J V S) → h ≡ some k → IsFinal k)
      → Ran m (work_async_of m h otherwise cmd packet)
  unfolding work_async_of
  work_async_of-Ran m none otherwise cmd packet e f = record { stays = same m; ended = e }
  work_async_of-Ran m (some k) otherwise cmd packet e f = record {
    stays = record { worker = refl; events = refl; handlers = refl };
    ended = f k refl cmd packet m.service;
  }

  get_elem?-All :
      (P : RpcHandler J V S → Type 0) (hs : List (RpcHandler J V S)) (i : ℕ) (h : RpcHandler J V S)
      → All P hs
      → get_elem? hs i ≡ some h
      → P h
  get_elem?-All P [] i h a e = absurd (ground arith)
  get_elem?-All P (x ∷ hs) zero h a e = let is : x ≡ h = ground arith in subst P is a.0
  get_elem?-All P (x ∷ hs) (suc i) h a e = get_elem?-All P hs i h a.1 e

  cmn-Ran :
      (m : RpcMgr J V S) (cmd : ℤ) (packet : Packet V)
      → All IsFinal m.rpclist
      → Ran m (cmn_rpc_handler m cmd packet)
  unfolding cmn_rpc_handler get_cmn_rpc_handler code_of
  cmn-Ran m cmd packet f =
      work_async_of-Ran m _ feature_unsupported cmd packet refl
        λ k e. find_first-All IsFinal (λ h. h.cmnrpchandler) m.rpclist k f e

  async-Ran :
      (m : RpcMgr J V S) (cmd : ℕ) (packet : Packet V)
      → All IsFinal m.rpclist
      → Ran m (async_task_work m cmd packet)
  unfolding async_task_work get_rpc_handler code_of
  async-Ran m cmd packet f = elim (Bool-cases (leb (length m.rpclist) (cmd - cmd_end))) [
    | inl e ↦ rw e (record { stays = same m; ended = refl })
    | inr e ↦ elim (Bool-cases (ltb cmd cmd_end)) [
      | inl e' ↦ rw (e, e') (record { stays = same m; ended = refl })
      | inr e' ↦
          rw (e, e')
            (work_async_of-Ran m (get_elem? m.rpclist (cmd - cmd_end)) fail (pos (cmd - cmd_end))
              packet refl λ k g. get_elem?-All IsFinal m.rpclist (cmd - cmd_end) k f g)
    ]
  ]

  builtin-Ran :
      (m : RpcMgr J V S) (o : Option RpcmgrCmd) (cmd : ℕ) (packet : Packet V)
      → All IsFinal m.rpclist
      → Ran m (run_builtin m o cmd packet)
  unfolding run_builtin code_of
  builtin-Ran m none cmd packet f = async-Ran m cmd packet f
  builtin-Ran m (some shutdown_service) cmd packet f = elim (Bool-cases m.has_timer) [
    | inl e ↦
        let m' : RpcMgr J V S = record m { forced_exits = m.forced_exits + 1 } in
        let is : (success, m') ≡ run_builtin m (some shutdown_service) cmd packet = ground arith in
        subst (Ran m) is (record {
          stays = record { worker = refl; events = refl; handlers = refl };
          ended = refl;
        })
    | inr e ↦
        let is : (success, m) ≡ run_builtin m (some shutdown_service) cmd packet = ground arith in
        subst (Ran m) is (record { stays = same m; ended = refl })
  ]
  builtin-Ran m (some trigger_datasave) cmd packet f = cmn-Ran m (pos cmd) packet f
  builtin-Ran m (some trigger_factory_store) cmd packet f = cmn-Ran m (pos cmd) packet f
  builtin-Ran m (some trigger_factory_restore) cmd packet f = cmn-Ran m (pos cmd) packet f
  builtin-Ran m (some trigger_run) cmd packet f = cmn-Ran m (pos cmd) packet f
  builtin-Ran m (some set_devop_state) cmd packet f = cmn-Ran m (pos cmd) packet f
  builtin-Ran m (some get_task_sts) cmd packet f = record { stays = same m; ended = refl }
  builtin-Ran m (some get_rpc_srv_version) cmd packet f = record { stays = same m; ended = refl }
  builtin-Ran m (some get_settings_sts) cmd packet f = record { stays = same m; ended = refl }
  builtin-Ran m (some reset_task_sts) cmd packet f = record { stays = same m; ended = refl }
  builtin-Ran m (some get_ready_sts) cmd packet f = record { stays = same m; ended = refl }
  builtin-Ran m (some get_debug_log) cmd packet f = record { stays = same m; ended = refl }
  builtin-Ran m (some set_debug_log) cmd packet f = record { stays = same m; ended = refl }
  builtin-Ran m (some event_subscribe) cmd packet f = record { stays = same m; ended = refl }
  builtin-Ran m (some event_unsubscribe) cmd packet f = record { stays = same m; ended = refl }
  builtin-Ran m (some event_notify) cmd packet f = record { stays = same m; ended = refl }
  builtin-Ran m (some event_process) cmd packet f = record { stays = same m; ended = refl }
  builtin-Ran m (some get_devop_state) cmd packet f = record { stays = same m; ended = refl }
  builtin-Ran m (some get_mw_byte) cmd packet f = record { stays = same m; ended = refl }
  builtin-Ran m (some set_mw_byte) cmd packet f = record { stays = same m; ended = refl }
  builtin-Ran m (some get_mw_word) cmd packet f = record { stays = same m; ended = refl }
  builtin-Ran m (some set_mw_word) cmd packet f = record { stays = same m; ended = refl }
  builtin-Ran m (some get_mw_dword) cmd packet f = record { stays = same m; ended = refl }
  builtin-Ran m (some set_mw_dword) cmd packet f = record { stays = same m; ended = refl }

  pub run_work-Stays :
      (m : RpcMgr J V S) (cmd : ℕ) (packet : Packet V)
      → All IsFinal m.rpclist
      → Stays m (run_work m cmd packet).1 × (is_in_prog (run_work m cmd packet).0 ≡ false)
  unfolding run_work
  run_work-Stays m cmd packet f =
      let ran = builtin-Ran m (cmd_of (pos cmd)) cmd packet f in (ran.stays, ran.ended)

  worker_begins-IsSound : (m : RpcMgr J V S) (now : ℕ) → IsSound m → IsSound (worker_begins m now)
  unfolding worker_begins
  worker_begins-IsSound m now h = elim (Option-cases m.task_worker.running) [
    | inl e ↦
        let m' : RpcMgr J V S = record m { task_worker = begin_work m.task_worker now } in
        let is : m' ≡ worker_begins m now = ground arith in
        let sound : IsSound m' = record {
          well = begin_work-IsWell m.task_worker now e h.well;
          tidy = h.tidy;
          final = h.final;
        } in
        subst IsSound is sound
    | inr (t, e) ↦ let is : m ≡ worker_begins m now = ground arith in subst IsSound is h
  ]

  ends_of-IsSound :
      (m : RpcMgr J V S) (o : Option (WorkCmdTask (Packet V)))
      → IsSound m
      → IsSound (worker_ends_of m o)
  unfolding worker_ends_of
  ends_of-IsSound m none h = h
  ends_of-IsSound m (some t) h =
      let (stays, ended) = run_work-Stays m t.command t.work_data h.final in
      let (result, m') = run_work m t.command t.work_data in
      let h' = Stays-IsSound m m' stays h in
      record {
        well = finish_work-IsWell m'.task_worker result ended h'.well;
        tidy = events-IsTidyMgr m'.event_mgr (finish_work m'.task_worker result).0 h'.tidy;
        final = h'.final;
      }

  worker_ends-IsSound : (m : RpcMgr J V S) → IsSound m → IsSound (worker_ends m)
  unfolding worker_ends
  worker_ends-IsSound m h = ends_of-IsSound m m.task_worker.running h

  pub worker_steps-IsSound :
      (ss : List WorkerStep) (m : RpcMgr J V S) → IsSound m → IsSound (worker_steps ss m)
  worker_steps-IsSound [] m h = h
  worker_steps-IsSound (begins now ∷ ss) m h =
      worker_steps-IsSound ss (worker_begins m now) (worker_begins-IsSound m now h)
  worker_steps-IsSound (ends ∷ ss) m h =
      worker_steps-IsSound ss (worker_ends m) (worker_ends-IsSound m h)

  pub run_handler-IsSound :
      (w : Work J V S) (m : RpcMgr J V S) → IsSound m → IsSound (run_handler m w).2
  unfolding run_handler
  run_handler-IsSound (done code r s) m h =
      Stays-IsSound m (record m { service = s })
        (record { worker = refl; events = refl; handlers = refl }) h
  run_handler-IsSound (push cmd packet flag next) m h =
      let (id, w) = push_task m.task_worker (cmd + cmd_end) packet flag in
      run_handler-IsSound (next id) (record m { task_worker = w })
        (record {
          well = push_task-IsWell m.task_worker (cmd + cmd_end) packet flag h.well;
          tidy = h.tidy;
          final = h.final;
        })
