-- ===== src/TaskWorker.antt =====
-- lib/lib-jsonrpc-tcp ADTaskWorker (.hpp, .cpp): asynchronous tasks, run one at a time by a worker
-- thread and polled by their ids. `D` is the type of the work data. `running` is the worker
-- thread's local `work_obj` between `chain_get` and the update of the in-progress record, so that
-- the other calls can come in between; `run_work`, the consumer's, is given by its result. One
-- thread pushes, and the worker takes a task only after the wakeup that ends `push_task`, so
-- `push_task` is one step. Times are those of CLOCK_MONOTONIC in milliseconds. Allocation succeeds.
pub mod Records
pub mod Invariant
pub mod Calls
pub mod Reset
pub mod Polling
mod Tests
use jsonrpc_tcp_srv.Prelude.{
  ℕ, zero, suc, ◌+◌, Bool, true, false, not, ◌&&◌, ◌||◌, List, [], ◌∷◌, Option, none, some, ltb,
  leb, ◌==◌, if◌then◌else◌, length, find_first, any, update_first, ℤ, pos, ◌==ℤ◌,
}
use jsonrpc_tcp_srv.RpcResult.{
  RpcSrvResult, success, in_prog, busy, task_id_not_found, code_of, is_in_prog,
}
use jsonrpc_tcp_srv.Chain.{
  Chain, new_chain, attach_helper, chain_put, chain_get, chain_remove_by_ident, chain_get_by_ident,
  chain_generate_ident, chain_empty, get_chain_size,
}

pub data WorkCmdAfterDone : Type 0 where
  preserve delete unknown_done none_done : WorkCmdAfterDone

pub data AsyncRespType : Type 0 where
  poll trigger event_resp unknown_resp none_resp : AsyncRespType

pub record WorkCmdTask (D : Type 0) : Type 0 where
  pub task_id : ℕ
  pub percent_complete : ℕ
  pub command : ℕ
  pub task_sts : RpcSrvResult
  pub done_action : WorkCmdAfterDone
  pub resp_type : AsyncRespType
  pub work_data : D

pub record WorkCmdTaskInProg : Type 0 where
  pub task_id : ℕ
  pub percent_complete : ℕ
  pub command : ℕ
  pub task_sts : RpcSrvResult

abbrev pub max_inprog_tasks : ℕ
max_inprog_tasks = 256

abbrev pub reset_wait_ms : ℕ
reset_wait_ms = 1000

-- ADLIB_EVENT_NUM_INPROG_DONE
abbrev pub event_inprog_done : ℕ
event_inprog_done = 0

pub record TaskWorker (D : Type 0) : Type 0 where
  pub work_chain : Chain (WorkCmdTask D)
  pub work_inprog_chain : Chain WorkCmdTaskInProg
  pub running : Option (WorkCmdTask D)
  pub running_since_ms : ℕ

abbrev pub identify_in_prog : ℤ → WorkCmdTaskInProg → Bool
identify_in_prog ident p = pos p.task_id ==ℤ ident

-- A task whose status may still change.
abbrev pub is_open_task : WorkCmdTaskInProg → Bool
is_open_task p = is_in_prog p.task_sts

-- The first finished record, by the loop over `chain_get_by_index`.
pub victim_of : List WorkCmdTaskInProg → Option ℕ
victim_of [] = none
victim_of (p ∷ ps) = if not (is_in_prog p.task_sts) then some p.task_id else victim_of ps

-- `evict_completed_tasks` with fuel: one round for each record, and one to stop.
pub evict_loop : ℕ → Chain WorkCmdTaskInProg → Chain WorkCmdTaskInProg
evict_loop zero c = c
evict_loop (suc fuel) c =
    let rest : Chain WorkCmdTaskInProg = elim (victim_of c.items) [
      | none ↦ c
      | some victim ↦ evict_loop fuel (chain_remove_by_ident identify_in_prog c (pos victim)).1
    ] in
    if leb max_inprog_tasks (get_chain_size c) then rest else c

pub evict_completed_tasks : Chain WorkCmdTaskInProg → Chain WorkCmdTaskInProg
unfolding evict_loop
evict_completed_tasks c = evict_loop (suc (length c.items)) c

pub new_record : ℕ → ℕ → WorkCmdTaskInProg
new_record id work_cmd = record {
  task_id = id;
  percent_complete = 0;
  command = work_cmd;
  task_sts = in_prog;
}

pub finished : RpcSrvResult → WorkCmdTaskInProg → WorkCmdTaskInProg
finished result p = record p { task_sts = result; percent_complete = 100 }

-- What becomes of the record and the event sink, after `run_work` returned.
pub record_result :
    Chain WorkCmdTaskInProg
    → ℕ
    → WorkCmdAfterDone
    → RpcSrvResult
    → List (ℕ × ℕ × RpcSrvResult) × Chain WorkCmdTaskInProg
unfolding finished
record_result c id preserve result = (
  (event_inprog_done, id, result) ∷ [],
  (if c.attached
      then record c { items = update_first (identify_in_prog (pos id)) (finished result) c.items }
      else c),
)
record_result c id _ result = ([], (chain_remove_by_ident identify_in_prog c (pos id)).1)

module _ {D : Type 0} where
  -- The constructor.
  pub new_task_worker : TaskWorker D
  unfolding attach_helper new_chain
  new_task_worker = record {
    work_chain = (attach_helper new_chain).1;
    work_inprog_chain = (attach_helper new_chain).1;
    running = none;
    running_since_ms = 0;
  }

  unfoldable pub new_task : ℕ → ℕ → D → WorkCmdAfterDone → WorkCmdTask D
  new_task id work_cmd data_ done = record {
    task_id = id;
    percent_complete = 0;
    command = work_cmd;
    task_sts = in_prog;
    done_action = done;
    resp_type = poll;
    work_data = data_;
  }

  pub identify_work : ℤ → WorkCmdTask D → Bool
  identify_work ident t = pos t.task_id ==ℤ ident

  -- The two `chain_put`s; the number is `*taskID`.
  pub put_both : TaskWorker D → Chain WorkCmdTaskInProg → WorkCmdTask D → Option ℕ × TaskWorker D
  put_both w c t =
      let (put, work) = chain_put w.work_chain t in
      let (put', inprog) = chain_put c (new_record t.task_id t.command) in
      if not put
      then (none, record w { work_inprog_chain = c })
      else if not put'
      then (
        none,
        record w {
          work_chain = (chain_remove_by_ident identify_work work (pos t.task_id)).1;
          work_inprog_chain = c;
        },
      )
      else (some t.task_id, record w { work_chain = work; work_inprog_chain = inprog })

  -- The result is the task's id, or `none` for the return code -1.
  pub push_task : TaskWorker D → ℕ → D → WorkCmdAfterDone → Option ℕ × TaskWorker D
  unfolding put_both new_task new_record identify_work
  push_task w work_cmd data_ done =
      let c =
        if leb max_inprog_tasks (get_chain_size w.work_inprog_chain)
        then evict_completed_tasks w.work_inprog_chain
        else w.work_inprog_chain in
      let (id, c') = chain_generate_ident c in put_both w c' (new_task id work_cmd data_ done)

  -- `monoshot_callback_function`, up to the call of `run_work`.
  pub begin_work : TaskWorker D → ℕ → TaskWorker D
  begin_work w now =
      let (task, work) = chain_get w.work_chain in
      record w {
        work_chain = work;
        running = task;
        running_since_ms = elim task [ none ↦ w.running_since_ms | some _ ↦ now ];
      }

  -- `resp_type` TRIGGER makes a task one to delete.
  unfoldable pub done_action_of : WorkCmdTask D → WorkCmdAfterDone
  done_action_of t = elim t.resp_type [ trigger ↦ delete | _ ↦ t.done_action ]

  pub finish_task :
      TaskWorker D
      → Option (WorkCmdTask D)
      → RpcSrvResult
      → List (ℕ × ℕ × RpcSrvResult) × TaskWorker D
  unfolding record_result done_action_of
  finish_task w none result = ([], w)
  finish_task w (some t) result =
      let (events, inprog) =
        record_result w.work_inprog_chain t.task_id (done_action_of t) result in
      (events, record w { work_inprog_chain = inprog; running = none; running_since_ms = 0 })

  -- The rest of `monoshot_callback_function`: the result of `run_work` is recorded. The events are
  -- those of `task_worker_event`.
  pub finish_work : TaskWorker D → RpcSrvResult → List (ℕ × ℕ × RpcSrvResult) × TaskWorker D
  unfolding finish_task
  finish_work w result = finish_task w w.running result

  pub status_of : TaskWorker D → ℤ → Option WorkCmdTaskInProg → RpcSrvResult × TaskWorker D
  status_of w task_id none = (task_id_not_found, w)
  status_of w task_id (some p) = if is_in_prog p.task_sts then (in_prog, w) else (
    p.task_sts,
    record w {
      work_inprog_chain = (chain_remove_by_ident identify_in_prog w.work_inprog_chain task_id).1;
    },
  )

  -- The result is `*taskSts`; the call itself always returns success.
  pub get_task_status : TaskWorker D → ℤ → RpcSrvResult × TaskWorker D
  unfolding status_of
  get_task_status w task_id =
      status_of w task_id (chain_get_by_ident identify_in_prog w.work_inprog_chain task_id)

  pub tasks_pending : TaskWorker D → Bool
  tasks_pending w =
      ltb 0 (get_chain_size w.work_chain) || any is_open_task w.work_inprog_chain.items

  -- One round of `reset_task_id_and_chain`, which began at `start`: its result, or `none` if it
  -- sleeps and looks again.
  pub reset_round : TaskWorker D → ℕ → ℕ → Option RpcSrvResult × TaskWorker D
  reset_round w start now =
      if tasks_pending w
      then (
        if (not (w.running_since_ms == 0) && leb (w.running_since_ms + reset_wait_ms) now)
              || leb (start + reset_wait_ms) now
            then some busy
            else none,
        w,
      )
      else (some success, record w { work_inprog_chain = (chain_empty w.work_inprog_chain).1 })
