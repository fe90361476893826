-- ===== src/TaskWorker/Polling.antt =====
-- The life of a task of ADTaskWorker as the client that polls `get_task_status` sees it.
use jsonrpc_tcp_srv.Prelude.{
  ℕ, ◌+◌, ◌<◌, true, false, [], ◌∷◌, ◌++◌, none, some, ==_iff, find_first, remove_first,
  update_first, pos, ◌≡◌, refl, ap, sym, subst, ◌∙◌, arith,
}
use jsonrpc_tcp_srv.RpcResult.{RpcSrvResult, is_in_prog, in_prog, code_of, task_id_not_found}
use jsonrpc_tcp_srv.Chain.{Chain, chain_add, chain_get_by_ident, chain_remove_by_ident}
use jsonrpc_tcp_srv.TaskWorker.{
  WorkCmdTask, WorkCmdTaskInProg, WorkCmdAfterDone, preserve, TaskWorker, push_task, finish_work,
  finish_task, record_result, new_record, finished, done_action_of, get_task_status, status_of,
  is_open_task, identify_in_prog, event_inprog_done,
}
use jsonrpc_tcp_srv.TaskWorker.Records.{find_first-above, find_first-append, find_first-finished}
use jsonrpc_tcp_srv.TaskWorker.Invariant.{removed-items, removed-IsKept, record_result-Closes}
use jsonrpc_tcp_srv.TaskWorker.Calls.{
  IsWell, task_ids, running_ids, next_id, pushed_onto, pushed_onto-KeepsOpen, pushed,
  push_task-pushed,
}

record_result-items :
    (c : Chain WorkCmdTaskInProg) (id : ℕ) (result : RpcSrvResult)
    → c.attached ≡ true
    → (record_result c id preserve result).1.items
      ≡ update_first (identify_in_prog (pos id)) (finished result) c.items
unfolding record_result
record_result-items c id result h = ground arith

module _ {D : Type 0} where
  fresh :
      (w : TaskWorker D) → IsWell w → get_task_status w (pos (next_id w)) ≡ (task_id_not_found, w)
  unfolding get_task_status status_of chain_get_by_ident next_id
  fresh w h =
      let c = w.work_inprog_chain in
      ground (
        arith,
        h.kept.attached,
        find_first-above (c.ident_generator + 1) 0 c.items c.ident_generator h.kept.rising
            (omega arith),
      )

  next-above :
      (w : TaskWorker D)
      → (pushed_onto w).ident_generator ≡ w.work_inprog_chain.ident_generator
      → (pushed_onto w).ident_generator < next_id w
  unfolding next_id
  next-above w e = omega (arith, e)

  status-pushed :
      (w : TaskWorker D) (work_cmd : ℕ) (data_ : D) (done : WorkCmdAfterDone)
      → IsWell w
      → let w' = pushed w work_cmd data_ done in
        get_task_status w' (pos (next_id w)) ≡ (in_prog, w')
  unfolding get_task_status status_of chain_get_by_ident pushed chain_add new_record code_of
  status-pushed w work_cmd data_ done h =
      let k = pushed_onto-KeepsOpen w h.kept in
      let c = pushed_onto w in
      let q = identify_in_prog (pos (next_id w)) in
      let p = new_record (next_id w) work_cmd in
      let above =
        find_first-above (next_id w) 0 c.items c.ident_generator k.kept.rising
          (next-above w k.ident) in
      let found = find_first-append q c.items p above ((==_iff (next_id w) (next_id w)).1 refl) in
      ground (arith, k.kept.attached, found)

  -- On a worker whose calls kept it well formed, `push_task` hands out an id that no record had,
  -- and from then on `get_task_status` answers for it that the task is in progress, and changes
  -- nothing.
  pub get_task_status-push_task :
      (w : TaskWorker D) (work_cmd : ℕ) (data_ : D) (done : WorkCmdAfterDone)
      → IsWell w
      → let (r, w') = push_task w work_cmd data_ done in
        (get_task_status w (pos (next_id w)) ≡ (task_id_not_found, w))
        × (r ≡ some (next_id w))
        × (get_task_status w' (pos (next_id w)) ≡ (in_prog, w'))
  get_task_status-push_task w work_cmd data_ done h = (
    fresh w h,
    ap (λ r. r.0) (push_task-pushed w work_cmd data_ done h),
    subst (λ r. get_task_status r.1 (pos (next_id w)) ≡ (in_prog, r.1))
        (sym (push_task-pushed w work_cmd data_ done h)) (status-pushed w work_cmd data_ done h),
  )

  status-found :
      (w : TaskWorker D) (k : ℕ) (p : WorkCmdTaskInProg)
      → w.work_inprog_chain.attached ≡ true
      → find_first (identify_in_prog (pos k)) w.work_inprog_chain.items ≡ some p
      → is_open_task p ≡ false
      → get_task_status w (pos k) ≡ (
        p.task_sts,
        record w {
          work_inprog_chain =
              (chain_remove_by_ident identify_in_prog w.work_inprog_chain (pos k)).1;
        },
      )
  unfolding get_task_status status_of chain_get_by_ident
  status-found w k p h f n = ground arith

  status-none :
      (w : TaskWorker D) (k : ℕ)
      → w.work_inprog_chain.attached ≡ true
      → find_first (identify_in_prog (pos k)) w.work_inprog_chain.items ≡ none
      → get_task_status w (pos k) ≡ (task_id_not_found, w)
  unfolding get_task_status status_of chain_get_by_ident
  status-none w k h f = ground arith

  -- The worker after a finished task to be preserved.
  preserved : TaskWorker D → WorkCmdTask D → RpcSrvResult → TaskWorker D
  preserved w t result = record w {
    work_inprog_chain = (record_result w.work_inprog_chain t.task_id preserve result).1;
    running = none;
    running_since_ms = 0;
  }

  finish_work-preserved :
      (w : TaskWorker D) (t : WorkCmdTask D) (result : RpcSrvResult)
      → w.running ≡ some t
      → done_action_of t ≡ preserve
      → finish_work w result ≡ ((event_inprog_done, t.task_id, result) ∷ [], preserved w t result)
  unfolding finish_work finish_task preserved record_result
  finish_work-preserved w t result e a = ground arith

  -- The record that is found has the result, and once it is removed none is found.
  preserved-status :
      (w : TaskWorker D) (t : WorkCmdTask D) (result : RpcSrvResult)
      → IsWell w
      → w.running ≡ some t
      → is_in_prog result ≡ false
      → let (r, w') = get_task_status (preserved w t result) (pos t.task_id) in
        (r ≡ result) × (get_task_status w' (pos t.task_id) ≡ (task_id_not_found, w'))
  unfolding preserved
  preserved-status w t result h e n =
      let c = w.work_inprog_chain in
      let c' = (record_result c t.task_id preserve result).1 in
      let id = t.task_id in
      let opens = h.opens ∙ ap (λ r. running_ids r ++ task_ids w.work_chain.items) e in
      let kept =
        (record_result-Closes c id preserve result (task_ids w.work_chain.items) h.kept n
          opens).kept in
      let (found, gone) =
        find_first-finished id 0 result c.items c.ident_generator (task_ids w.work_chain.items)
          h.kept.rising opens in
      let items = record_result-items c id result h.kept.attached in
      let find = ap (find_first (identify_in_prog (pos id))) items ∙ found.1 in
      let closed = ap is_in_prog found.2 ∙ n in
      let is = status-found (preserved w t result) id found.0 kept.attached find closed in
      let lost =
        ap (find_first (identify_in_prog (pos id)))
          (removed-items c' id kept ∙ ap (remove_first (identify_in_prog (pos id))) items)
        ∙ gone in
      let after : TaskWorker D = record (preserved w t result) {
        work_inprog_chain = (chain_remove_by_ident identify_in_prog c' (pos id)).1;
      } in
      subst (λ x. (x.0 ≡ result) × (get_task_status x.1 (pos id) ≡ (task_id_not_found, x.1)))
        (sym is) (found.2, status-none after id (removed-IsKept c' id kept).attached lost)

  -- When the worker finishes a task that is to be preserved, with a result other than "in
  -- progress", one completion event goes out; the next `get_task_status` of its id returns the
  -- result, and those after it that there is no such task.
  pub get_task_status-finish_work :
      (w : TaskWorker D) (t : WorkCmdTask D) (result : RpcSrvResult)
      → IsWell w
      → w.running ≡ some t
      → done_action_of t ≡ preserve
      → is_in_prog result ≡ false
      → let (events, w') = finish_work w result in
        let (r, w'') = get_task_status w' (pos t.task_id) in
        (events ≡ (event_inprog_done, t.task_id, result) ∷ [])
        × (r ≡ result)
        × (get_task_status w'' (pos t.task_id) ≡ (task_id_not_found, w''))
  get_task_status-finish_work w t result h e a n =
      subst
        (λ x.
          let r = get_task_status x.1 (pos t.task_id) in
          (x.0 ≡ (event_inprog_done, t.task_id, result) ∷ [])
          × (r.0 ≡ result)
          × (get_task_status r.1 (pos t.task_id) ≡ (task_id_not_found, r.1)))
        (sym (finish_work-preserved w t result e a))
        (refl, (preserved-status w t result h e n).0, (preserved-status w t result h e n).1)
