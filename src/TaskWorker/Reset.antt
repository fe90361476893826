-- ===== src/TaskWorker/Reset.antt =====
-- `reset_task_id_and_chain` of ADTaskWorker, and the calls of a task worker in any order.
use jsonrpc_tcp_srv.Prelude.{
  ◌<◌, leb, ℕ, ◌+◌, false, List, [], ◌∷◌, ◌++◌, Option, none, some, length, any, All, pos,
  Bool-cases, Option-cases, ◌≡◌, ◌⊎◌, refl, ap, sym, subst, ◌∙◌, arith, inl, inr, ◌≢◌,
}
use jsonrpc_tcp_srv.RpcResult.{RpcSrvResult, is_in_prog, success, busy}
use jsonrpc_tcp_srv.Chain.{Chain, remove_head, remove_each, remove_all, chain_empty, get_chain_size}
use jsonrpc_tcp_srv.TaskWorker.{
  WorkCmdTask, WorkCmdTaskInProg, WorkCmdAfterDone, TaskWorker, new_task_worker, push_task,
  begin_work, finish_work, get_task_status, reset_round, reset_wait_ms, tasks_pending, is_open_task,
}
use jsonrpc_tcp_srv.TaskWorker.Records.{Rising, open_ids}
use jsonrpc_tcp_srv.TaskWorker.Invariant.{IsKept}
use jsonrpc_tcp_srv.TaskWorker.Calls.{
  IsWell, task_ids, running_ids, push_task-IsWell, begin_work-IsWell, finish_work-IsWell,
  get_task_status-IsWell, new_task_worker-IsWell, next_id,
}

open_ids-none : (ps : List WorkCmdTaskInProg) → any is_open_task ps ≡ false → open_ids ps ≡ []
open_ids-none [] e = refl
open_ids-none (p ∷ ps) e = ground (arith, open_ids-none ps)

none-open_ids : (ps : List WorkCmdTaskInProg) → open_ids ps ≡ [] → any is_open_task ps ≡ false
none-open_ids [] e = refl
none-open_ids (p ∷ ps) e = ground (arith, none-open_ids ps)

record IsEmptied {ℓ} {A : Type ℓ} (c c' : Chain A) : Type ℓ where
  items : c'.items ≡ []
  sized : c'.chain_size ≡ 0
  live : c'.init_flag ≡ c.init_flag
  attached : c'.attached ≡ c.attached

remove_each-IsEmptied {ℓ} :
    {A : Type ℓ} (c : Chain A) (xs : List A)
    → c.items ≡ xs
    → c.chain_size ≡ length xs
    → IsEmptied c (remove_each c xs).1
unfolding remove_each remove_head
remove_each-IsEmptied c [] e s = record { items = e; sized = s; live = refl; attached = refl }
remove_each-IsEmptied c (x ∷ xs) e s =
    let c' = (remove_head c (x ∷ xs)).1 in
    let rest = remove_each-IsEmptied c' xs refl (omega (arith, s)) in
    record { items = rest.items; sized = rest.sized; live = rest.live; attached = rest.attached }

chain_empty-items : (c : Chain WorkCmdTaskInProg) → IsKept c → (chain_empty c).1.items ≡ []
unfolding chain_empty remove_all
chain_empty-items c h = (remove_each-IsEmptied c c.items refl h.sized).items

chain_empty-IsKept : (c : Chain WorkCmdTaskInProg) → IsKept c → IsKept (chain_empty c).1
unfolding chain_empty remove_all
chain_empty-IsKept c h =
    let e = remove_each-IsEmptied c c.items refl h.sized in
    record {
      live = e.live ∙ h.live;
      attached = e.attached ∙ h.attached;
      sized = e.sized ∙ sym (ap length e.items);
      rising = subst (λ l. Rising 0 l 0) (sym e.items) (omega arith);
    }

module _ {D : Type 0} where
  -- Nothing is queued or running.
  abbrev pub IsIdle : TaskWorker D → Type 0
  IsIdle w = (w.running ≡ none) × (w.work_chain.items ≡ [])

  no_ids :
      (r : Option (WorkCmdTask D)) (ts : List (WorkCmdTask D))
      → running_ids r ++ task_ids ts ≡ []
      → (r ≡ none) × (ts ≡ [])
  no_ids none [] e = (refl, refl)
  no_ids none (t ∷ ts) e = absurd (ground arith)
  no_ids (some t) ts e = absurd (ground arith)

  not_pending-IsIdle : (w : TaskWorker D) → IsWell w → tasks_pending w ≡ false → IsIdle w
  unfolding tasks_pending get_chain_size
  not_pending-IsIdle w h n =
      no_ids w.running w.work_chain.items
        (sym h.opens ∙ open_ids-none w.work_inprog_chain.items (ground (arith, n)))

  IsIdle-pending : (w : TaskWorker D) → IsWell w → IsIdle w → tasks_pending w ≡ false
  unfolding tasks_pending get_chain_size
  IsIdle-pending w h (idle, done) =
      let shut = none-open_ids w.work_inprog_chain.items (
        h.opens ∙ ap (λ r. running_ids r ++ task_ids w.work_chain.items) idle ∙ ap task_ids done) in
      ground (arith, shut, h.work_sized, ap length done)

  pub reset_round-IsWell :
      (w : TaskWorker D) (start now : ℕ) → IsWell w → IsWell (reset_round w start now).1
  unfolding reset_round
  reset_round-IsWell w start now h = elim (Bool-cases (tasks_pending w)) [
    | inl e ↦ let same : w ≡ (reset_round w start now).1 = ground arith in subst IsWell same h
    | inr e ↦
        let after : TaskWorker D = record w {
          work_inprog_chain = (chain_empty w.work_inprog_chain).1;
        } in
        let is : after ≡ (reset_round w start now).1 = ground arith in
        let idle = not_pending-IsIdle w h e in
        let well : IsWell after = record {
          work_live = h.work_live;
          work_sized = h.work_sized;
          kept = chain_empty-IsKept w.work_inprog_chain h.kept;
          opens =
              ap open_ids (chain_empty-items w.work_inprog_chain h.kept)
              ∙ sym (
                  ap (λ r. running_ids r ++ task_ids w.work_chain.items) idle.0
                  ∙ ap task_ids idle.1);
        } in
        subst IsWell is well
  ]

  reset_round-success :
      (w : TaskWorker D) (start now : ℕ)
      → tasks_pending w ≡ false
      → reset_round w start now
        ≡ (some success, record w { work_inprog_chain = (chain_empty w.work_inprog_chain).1 })
  unfolding reset_round
  reset_round-success w start now e = ground arith

  -- A round of `reset_task_id_and_chain` on a worker that its calls made: if nothing is queued or
  -- running it succeeds, the records are gone and the next id is 1; else it changes nothing, does
  -- not succeed, and gives up with busy once `reset_wait_ms` have passed since it began.
  pub reset_round_lem :
      (w : TaskWorker D) (start now : ℕ)
      → IsWell w
      → let (r, w') = reset_round w start now in
        (IsIdle w × (r ≡ some success) × (w'.work_inprog_chain.items ≡ []) × (next_id w' ≡ 1))
        ⊎ (¬ IsIdle w
            × (w' ≡ w)
            × (r ≢ some success)
            × ((now < start + reset_wait_ms) ⊎ (r ≡ some busy)))
  unfolding reset_round next_id chain_empty
  reset_round_lem w start now h = elim (Bool-cases (tasks_pending w)) [
    | inl e ↦ inr (
      λ i. ground (arith, IsIdle-pending w h i),
      ground arith,
      λ s. ground arith,
      elim (Bool-cases (leb (start + reset_wait_ms) now)) [
        | inl l ↦ inr (ground arith)
        | inr l ↦ inl (ground arith)
      ],
    )
    | inr e ↦ inl (
      not_pending-IsIdle w h e,
      ground arith,
      ap (λ r. r.1.work_inprog_chain.items) (reset_round-success w start now e)
          ∙ chain_empty-items w.work_inprog_chain h.kept,
      ground arith,
    )
  ]

-- The calls of the RPC thread and the two halves of the worker thread's callback.
pub data Call (D : Type 0) : Type 0 where
  push : ℕ → D → WorkCmdAfterDone → Call D
  begin : ℕ → Call D
  finish : RpcSrvResult → Call D
  poll : ℕ → Call D
  reset : ℕ → ℕ → Call D

module _ {D : Type 0} where
  -- The worker thread runs one task at a time, so that it begins one only when idle.
  pub call : TaskWorker D → Call D → TaskWorker D
  call w (push work_cmd data_ done) = (push_task w work_cmd data_ done).1
  call w (begin now) = elim w.running [ none ↦ begin_work w now | some _ ↦ w ]
  call w (finish result) = (finish_work w result).1
  call w (poll id) = (get_task_status w (pos id)).1
  call w (reset start now) = (reset_round w start now).1

  pub calls : TaskWorker D → List (Call D) → TaskWorker D
  calls w [] = w
  calls w (k ∷ ks) = calls (call w k) ks

  -- `run_work` never says that it is in progress.
  abbrev pub IsDone : Call D → Type 0
  IsDone (finish result) = is_in_prog result ≡ false
  IsDone _ = Unit {0}

  call-IsWell : (w : TaskWorker D) (k : Call D) → IsDone k → IsWell w → IsWell (call w k)
  unfolding call
  call-IsWell w (push work_cmd data_ done) d h = push_task-IsWell w work_cmd data_ done h
  call-IsWell w (begin now) d h = elim (Option-cases w.running) [
    | inl e ↦
        let is : begin_work w now ≡ call w (begin now) = ground arith in
        subst IsWell is (begin_work-IsWell w now e h)
    | inr (t, e) ↦ let is : w ≡ call w (begin now) = ground arith in subst IsWell is h
  ]
  call-IsWell w (finish result) d h = finish_work-IsWell w result d h
  call-IsWell w (poll id) d h = get_task_status-IsWell w id h
  call-IsWell w (reset start now) d h = reset_round-IsWell w start now h

  calls-IsWell :
      (w : TaskWorker D) (ks : List (Call D)) → All IsDone ks → IsWell w → IsWell (calls w ks)
  unfolding calls
  calls-IsWell w [] d h = h
  calls-IsWell w (k ∷ ks) d h = calls-IsWell (call w k) ks d.1 (call-IsWell w k d.0 h)

  -- Whatever calls come in whatever order on a new worker, provided that `run_work` never returns
  -- the code for "in progress": the in-progress chain holds, oldest first, one open record for the
  -- running task and for each queued one and no other open record, and its ids rise.
  pub calls-new_task_worker-IsWell :
      (ks : List (Call D)) → All IsDone ks → IsWell (calls new_task_worker ks)
  calls-new_task_worker-IsWell ks d = calls-IsWell new_task_worker ks d new_task_worker-IsWell
