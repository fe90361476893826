-- ===== src/TaskWorker/Tests.antt =====
-- The task worker's properties at concrete inputs.
use jsonrpc_tcp_srv.Prelude.{
  ℕ, ◌+◌, true, false, List, [], ◌∷◌, some, ◌≡◌, ◌≢◌, ◌⊎◌, ◌<◌, refl, arith,
}
use jsonrpc_tcp_srv.RpcResult.{success, in_prog, busy, code_of}
use jsonrpc_tcp_srv.Chain.{Chain}
use jsonrpc_tcp_srv.TaskWorker.{
  WorkCmdTask, WorkCmdTaskInProg, preserve, delete, poll, TaskWorker, new_task_worker, reset_round,
  reset_wait_ms, evict_completed_tasks,
}
use jsonrpc_tcp_srv.TaskWorker.Invariant.{
  IsKept, KeepsOpen, IsEvicted, evict_completed_tasks-KeepsOpen,
}
use jsonrpc_tcp_srv.TaskWorker.Calls.{IsWell, next_id}
use jsonrpc_tcp_srv.TaskWorker.Reset.{
  Call, push, begin, finish, calls, IsIdle, calls-new_task_worker-IsWell, reset_round_lem,
}

abbrev two_calls : List (Call ℕ)
two_calls = push 7 0 preserve ∷ begin 5 ∷ finish success ∷ push 8 0 delete ∷ []

calls-new_task_worker-IsWell_example : IsWell (calls new_task_worker two_calls)
unfolding code_of
calls-new_task_worker-IsWell_example =
    calls-new_task_worker-IsWell two_calls (tt, (tt, (refl, (tt, tt))))

-- A worker that runs the first of its tasks, with the id 1.
abbrev first_task : WorkCmdTask ℕ
first_task = record {
  task_id = 1;
  percent_complete = 0;
  command = 7;
  task_sts = in_prog;
  done_action = preserve;
  resp_type = poll;
  work_data = 0;
}

abbrev first_record : WorkCmdTaskInProg
first_record = record { task_id = 1; percent_complete = 0; command = 7; task_sts = in_prog }

abbrev busy_chain : Chain WorkCmdTaskInProg
busy_chain = record {
  items = first_record ∷ [];
  chain_size = 1;
  chain_peak_size = 1;
  ident_generator = 1;
  init_flag = true;
  attached = true;
  disable_autoremove = false;
}

abbrev idle_chain : Chain (WorkCmdTask ℕ)
idle_chain = record {
  items = [];
  chain_size = 0;
  chain_peak_size = 1;
  ident_generator = 0;
  init_flag = true;
  attached = true;
  disable_autoremove = false;
}

abbrev busy_worker : TaskWorker ℕ
busy_worker = record {
  work_chain = idle_chain;
  work_inprog_chain = busy_chain;
  running = some first_task;
  running_since_ms = 5;
}

busy_chain-IsKept : IsKept busy_chain
busy_chain-IsKept = record {
  live = refl;
  attached = refl;
  sized = refl;
  rising = (omega arith, omega arith);
}

busy_worker-IsWell : IsWell busy_worker
unfolding code_of
busy_worker-IsWell = record {
  work_live = refl;
  work_sized = refl;
  kept = busy_chain-IsKept;
  opens = refl;
}

reset_round_lem_example :
    let (r, w') = reset_round busy_worker 0 2000 in
    (IsIdle busy_worker × (r ≡ some success) × (w'.work_inprog_chain.items ≡ []) × (next_id w' ≡ 1))
    ⊎ (¬ IsIdle busy_worker
        × (w' ≡ busy_worker)
        × (r ≢ some success)
        × ((2000 < 0 + reset_wait_ms) ⊎ (r ≡ some busy)))
reset_round_lem_example = reset_round_lem busy_worker 0 2000 busy_worker-IsWell

evict_completed_tasks-KeepsOpen_example :
    KeepsOpen busy_chain (evict_completed_tasks busy_chain)
    × IsEvicted (evict_completed_tasks busy_chain)
evict_completed_tasks-KeepsOpen_example =
    evict_completed_tasks-KeepsOpen busy_chain busy_chain-IsKept
