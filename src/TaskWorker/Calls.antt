-- ===== src/TaskWorker/Calls.antt =====
-- The calls of an ADTaskWorker in any order: the queue, the running task and the in-progress records
-- always describe the same tasks.
use jsonrpc_tcp_srv.Prelude.{
  ℕ, ℤ, negsuc, ◌+◌, true, false, List, [], ◌∷◌, ◌++◌, Option, none, some, leb, if◌then◌else◌,
  length, length-append, find_first, pos, Bool-cases, Option-cases, List-cases, ◌≡◌, refl, ap, sym,
  subst, ◌∙◌, arith, inl, inr, append_assoc,
}
use jsonrpc_tcp_srv.RpcResult.{RpcSrvResult, is_in_prog, code_of}
use jsonrpc_tcp_srv.Chain.{
  get_from, top_of, chain_remove, remove_head, Chain, chain_add, new_chain, attach_helper,
  chain_put, chain_get, chain_remove_by_ident, chain_get_by_ident, chain_generate_ident,
  get_chain_size,
}
use jsonrpc_tcp_srv.TaskWorker.{
  record_result, WorkCmdTask, WorkCmdTaskInProg, WorkCmdAfterDone, TaskWorker, new_task_worker,
  push_task, begin_work, finish_work, finish_task, done_action_of, status_of, get_task_status,
  identify_in_prog, is_open_task, evict_completed_tasks, max_inprog_tasks, new_record, put_both,
  new_task,
}
use jsonrpc_tcp_srv.TaskWorker.Records.{open_ids, Rising-append, open_ids-append}
use jsonrpc_tcp_srv.TaskWorker.Invariant.{
  IsKept, KeepsOpen, reported-KeepsOpen, record_result-Closes, evict_completed_tasks-KeepsOpen,
}

abbrev pub task_ids : {D : Type 0} → List (WorkCmdTask D) → List ℕ
task_ids [] = []
task_ids (t ∷ ts) = t.task_id ∷ task_ids ts

negsuc-none :
    (n : ℕ) (ps : List WorkCmdTaskInProg) → find_first (identify_in_prog (negsuc n)) ps ≡ none
negsuc-none n [] = refl
negsuc-none n (p ∷ ps) = negsuc-none n ps

module _ {D : Type 0} where
  -- The running task, if any, is the first of the open ones.
  abbrev pub running_ids : Option (WorkCmdTask D) → List ℕ
  running_ids none = []
  running_ids (some t) = t.task_id ∷ []

  pub record IsWell (w : TaskWorker D) : Type 0 where
    pub work_live : w.work_chain.init_flag ≡ true
    pub work_sized : w.work_chain.chain_size ≡ length w.work_chain.items
    pub kept : IsKept w.work_inprog_chain
    pub opens :
        open_ids w.work_inprog_chain.items ≡ running_ids w.running ++ task_ids w.work_chain.items

  task_ids-append :
      (ts us : List (WorkCmdTask D)) → task_ids (ts ++ us) ≡ task_ids ts ++ task_ids us
  task_ids-append [] us = refl
  task_ids-append (t ∷ ts) us = ap (◌∷◌ t.task_id) (task_ids-append ts us)

  pub new_task_worker-IsWell : IsWell new_task_worker
  unfolding new_task_worker attach_helper new_chain
  new_task_worker-IsWell = record {
    work_live = refl;
    work_sized = refl;
    kept = record { live = refl; attached = refl; sized = refl; rising = omega arith };
    opens = refl;
  }

  -- The chain that `push_task` puts the record on.
  pub pushed_onto : TaskWorker D → Chain WorkCmdTaskInProg
  pushed_onto w =
      if leb max_inprog_tasks (get_chain_size w.work_inprog_chain)
      then evict_completed_tasks w.work_inprog_chain
      else w.work_inprog_chain

  pub pushed_onto-KeepsOpen :
      (w : TaskWorker D)
      → IsKept w.work_inprog_chain
      → KeepsOpen w.work_inprog_chain (pushed_onto w)
  unfolding pushed_onto
  pushed_onto-KeepsOpen w h =
      elim (Bool-cases (leb max_inprog_tasks (get_chain_size w.work_inprog_chain))) [
        | inl e ↦
            let to : evict_completed_tasks w.work_inprog_chain ≡ pushed_onto w = ground arith in
            subst (KeepsOpen w.work_inprog_chain) to
              (evict_completed_tasks-KeepsOpen w.work_inprog_chain h).0
        | inr e ↦
            let to : w.work_inprog_chain ≡ pushed_onto w = ground arith in
            let same : KeepsOpen w.work_inprog_chain w.work_inprog_chain = record {
              kept = h;
              opens = refl;
              ident = refl;
            } in
            subst (KeepsOpen w.work_inprog_chain) to same
      ]

  -- The id that `push_task` gives next.
  unfoldable pub next_id : TaskWorker D → ℕ
  next_id w = w.work_inprog_chain.ident_generator + 1

  unfoldable pub pushed : TaskWorker D → ℕ → D → WorkCmdAfterDone → TaskWorker D
  pushed w work_cmd data_ done = record w {
    work_chain = chain_add w.work_chain (new_task (next_id w) work_cmd data_ done);
    work_inprog_chain =
        chain_add (record (pushed_onto w) { ident_generator = next_id w })
          (new_record (next_id w) work_cmd);
  }

  pub push_task-pushed :
      (w : TaskWorker D) (work_cmd : ℕ) (data_ : D) (done : WorkCmdAfterDone)
      → IsWell w
      → push_task w work_cmd data_ done ≡ (some (next_id w), pushed w work_cmd data_ done)
  unfolding push_task put_both chain_put chain_generate_ident pushed_onto new_task next_id pushed
  push_task-pushed w work_cmd data_ done h =
      let c = pushed_onto-KeepsOpen w h.kept in ground (arith, h.work_live, c.kept.live, c.ident)

  pushed-IsWell :
      (w : TaskWorker D) (work_cmd : ℕ) (data_ : D) (done : WorkCmdAfterDone)
      → IsWell w
      → IsWell (pushed w work_cmd data_ done)
  unfolding pushed next_id chain_add new_task new_record code_of
  pushed-IsWell w work_cmd data_ done h =
      let c = pushed_onto-KeepsOpen w h.kept in
      let onto = pushed_onto w in
      let p = new_record (next_id w) work_cmd in
      record {
        work_live = h.work_live;
        work_sized = omega (
          arith,
          h.work_sized,
          length-append w.work_chain.items (new_task (next_id w) work_cmd data_ done ∷ []),
        );
        kept = record {
          live = c.kept.live;
          attached = c.kept.attached;
          sized = omega (arith, c.kept.sized, length-append onto.items (p ∷ []));
          rising =
              Rising-append 0 onto.items onto.ident_generator p c.kept.rising
                (omega (arith, c.ident));
        };
        opens =
            open_ids-append onto.items (p ∷ [])
            ∙ ap (λ l. l ++ next_id w ∷ []) (c.opens ∙ h.opens)
            ∙ append_assoc (running_ids w.running) (task_ids w.work_chain.items) (next_id w ∷ [])
            ∙ ap (λ l. running_ids w.running ++ l)
                (sym (
                  task_ids-append w.work_chain.items
                    (new_task (next_id w) work_cmd data_ done ∷ [])));
      }

  pub push_task-IsWell :
      (w : TaskWorker D) (work_cmd : ℕ) (data_ : D) (done : WorkCmdAfterDone)
      → IsWell w
      → IsWell (push_task w work_cmd data_ done).1
  push_task-IsWell w work_cmd data_ done h =
      subst (λ r. IsWell r.1) (sym (push_task-pushed w work_cmd data_ done h))
        (pushed-IsWell w work_cmd data_ done h)

  -- `begin_work` is called when the worker thread is idle.
  pub begin_work-IsWell :
      (w : TaskWorker D) (now : ℕ) → w.running ≡ none → IsWell w → IsWell (begin_work w now)
  unfolding begin_work chain_get get_from top_of chain_remove remove_head
  begin_work-IsWell w now idle h = elim (List-cases w.work_chain.items) [
    | inl e ↦ record {
      work_live = ground arith;
      work_sized = ground arith;
      kept = h.kept;
      opens = ground (arith, h.work_live, h.opens, idle);
    }
    | inr (t, ts, e) ↦ record {
      work_live = ground arith;
      work_sized = ground arith;
      kept = h.kept;
      opens = ground (arith, h.work_live, h.opens, idle);
    }
  ]

  pub finish_work-IsWell :
      (w : TaskWorker D) (result : RpcSrvResult)
      → is_in_prog result ≡ false
      → IsWell w
      → IsWell (finish_work w result).1
  unfolding finish_work finish_task
  finish_work-IsWell w result n h = elim (Option-cases w.running) [
    | inl e ↦ let same : w ≡ (finish_work w result).1 = ground arith in subst IsWell same h
    | inr (t, e) ↦
        let closes =
          record_result-Closes w.work_inprog_chain t.task_id (done_action_of t) result
            (task_ids w.work_chain.items) h.kept n
            (h.opens ∙ ap (λ r. running_ids r ++ task_ids w.work_chain.items) e) in
        let c = (record_result w.work_inprog_chain t.task_id (done_action_of t) result).1 in
        let after : TaskWorker D = record w {
          work_inprog_chain = c;
          running = none;
          running_since_ms = 0;
        } in
        let is : after ≡ (finish_work w result).1 = ap (λ r. (finish_task w r result).1) (sym e) in
        let well : IsWell after = record {
          work_live = h.work_live;
          work_sized = h.work_sized;
          kept = closes.kept;
          opens = closes.opens;
        } in
        subst IsWell is well
  ]

  pub get_task_status-IsWell :
      (w : TaskWorker D) (id : ℕ) → IsWell w → IsWell (get_task_status w (pos id)).1
  unfolding get_task_status status_of chain_get_by_ident
  get_task_status-IsWell w id h =
      elim (Option-cases (find_first (identify_in_prog (pos id)) w.work_inprog_chain.items)) [
        | inl e ↦
            let same : w ≡ (get_task_status w (pos id)).1 = ground arith in subst IsWell same h
        | inr (p, e) ↦ elim (Bool-cases (is_open_task p)) [
          | inl o ↦
              let same : w ≡ (get_task_status w (pos id)).1 = ground arith in subst IsWell same h
          | inr o ↦
              let keeps = reported-KeepsOpen w.work_inprog_chain id p h.kept e o in
              let after : TaskWorker D = record w {
                work_inprog_chain =
                    (chain_remove_by_ident identify_in_prog w.work_inprog_chain (pos id)).1;
              } in
              let is : after ≡ (get_task_status w (pos id)).1 = ground arith in
              let well : IsWell after = record {
                work_live = h.work_live;
                work_sized = h.work_sized;
                kept = keeps.kept;
                opens = keeps.opens ∙ h.opens;
              } in
              subst IsWell is well
        ]
      ]

  pub any_status-IsWell : (w : TaskWorker D) (id : ℤ) → IsWell w → IsWell (get_task_status w id).1
  unfolding get_task_status status_of chain_get_by_ident
  any_status-IsWell w (pos id) h = get_task_status-IsWell w id h
  any_status-IsWell w (negsuc n) h =
      let gone = negsuc-none n w.work_inprog_chain.items in
      let same : w ≡ (get_task_status w (negsuc n)).1 = ground (arith, h.kept.attached, gone) in
      subst IsWell same h

  -- The first task is the one that begins.
  pub begin_work-push_task :
      (work_cmd now : ℕ) (data_ : D) (done : WorkCmdAfterDone)
      → (begin_work (push_task new_task_worker work_cmd data_ done).1 now).running
        ≡ some (new_task 1 work_cmd data_ done)
  unfolding begin_work push_task new_task_worker chain_get chain_put chain_generate_ident
      get_chain_size
  begin_work-push_task work_cmd now data_ done = refl

  pub begin_work-first-IsWell :
      (work_cmd now : ℕ) (data_ : D) (done : WorkCmdAfterDone)
      → IsWell (begin_work (push_task new_task_worker work_cmd data_ done).1 now)
  unfolding push_task new_task_worker chain_put chain_generate_ident get_chain_size
  begin_work-first-IsWell work_cmd now data_ done =
      begin_work-IsWell (push_task new_task_worker work_cmd data_ done).1 now refl
        (push_task-IsWell new_task_worker work_cmd data_ done new_task_worker-IsWell)

pub next_id-new_task_worker : (D : Type 0) → next_id (new_task_worker {D = D}) ≡ 1
unfolding next_id new_task_worker new_chain attach_helper
next_id-new_task_worker D = refl
