-- ===== src/AdThread/Tests.antt =====
-- Tests and examples of ADThread.
use jsonrpc_tcp_srv.Prelude.{◌+◌, true, false, List, [], ◌∷◌, some, pos, minus_one, ◌≡◌, refl, inl}
use jsonrpc_tcp_srv.AdThread.{
  AdThread, monoshot, active, waiting, gone, free, new_thread, subscribe_thread_callback,
  set_thread_properties, create_thread, start_thread, start_thread_at, my_thread_func, thread_at,
  ctrl_step, ctrl_step_at, etimedout, stopping,
}
use jsonrpc_tcp_srv.AdThread.Soundness.{
  IsSound, Step, subscribe, set_type, start, stop, wake, thread, control, run, run-IsSound,
}
use jsonrpc_tcp_srv.AdThread.Stopping.{
  Meanwhile, thread_goes_on, has_signal, is_woken, meanwhile, stopped_after, stopped_after-gone,
}
use jsonrpc_tcp_srv.AdThread.Wakeups.{
  IsServing, wakeups, callbacks, open_wakeups, meanwhile-IsServing,
}

-- A thread that waits for its first wakeup.
abbrev serving_thread : AdThread
serving_thread = record {
  th_type = monoshot;
  init_flag = true;
  attached = true;
  thread_state = active;
  started = true;
  finished = false;
  sema = 0;
  place = waiting;
  ctrl = free;
}

serving_thread_test :
    run (subscribe ∷ set_type monoshot ∷ start true ∷ thread ∷ []) new_thread ≡ serving_thread
unfolding new_thread subscribe_thread_callback set_thread_properties create_thread start_thread
    start_thread_at my_thread_func thread_at
serving_thread_test = refl

start_thread_test : start_thread true serving_thread ≡ (some minus_one, serving_thread)
unfolding start_thread start_thread_at
start_thread_test = refl

-- A callback that runs on makes a limited wait give up.
etimedout_test :
    (ctrl_step true true (record serving_thread { ctrl = stopping true })).0 ≡ some etimedout
unfolding ctrl_step ctrl_step_at
etimedout_test = refl

abbrev first_calls : List Step
first_calls =
    subscribe
    ∷ set_type monoshot
    ∷ start true
    ∷ wake
    ∷ thread
    ∷ thread
    ∷ stop false false
    ∷ control false true
    ∷ thread
    ∷ thread
    ∷ control false true
    ∷ []

run-IsSound_example : IsSound (run first_calls new_thread)
run-IsSound_example = run-IsSound first_calls

abbrev last_steps : List Meanwhile
last_steps = is_woken ∷ thread_goes_on ∷ thread_goes_on ∷ has_signal ∷ thread_goes_on ∷ []

stopped_after-gone_example :
    ((stopped_after true false last_steps serving_thread).0 ≡ some (pos 0))
    × ((stopped_after true false last_steps serving_thread).1.place ≡ gone)
    × ((stopped_after true false last_steps serving_thread).1.started ≡ false)
stopped_after-gone_example =
    stopped_after-gone true false last_steps serving_thread
      (record {
        ended = refl;
        joined = inl refl;
        idle = inl refl;
        unlocked = inl refl;
        halted = inl refl;
      })
      refl refl refl refl

abbrev work_steps : List Meanwhile
work_steps =
    is_woken ∷ is_woken ∷ thread_goes_on ∷ thread_goes_on ∷ thread_goes_on ∷ thread_goes_on
    ∷ has_signal ∷ []

meanwhile-IsServing_example :
    IsServing (meanwhile work_steps serving_thread)
    × (wakeups work_steps + open_wakeups serving_thread
        ≡ callbacks work_steps serving_thread + open_wakeups (meanwhile work_steps serving_thread))
meanwhile-IsServing_example =
    meanwhile-IsServing work_steps serving_thread
      (record { mono = refl; consumer = refl; running = refl; inside = refl })
