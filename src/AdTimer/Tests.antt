-- ===== src/AdTimer/Tests.antt =====
-- Tests and examples of ADTimer.
use jsonrpc_tcp_srv.Prelude.{true, false, List, [], ◌∷◌, ◌≡◌, refl}
use jsonrpc_tcp_srv.AdThread.{
  monoshot, active, waiting, free, my_thread_func, thread_at, interrupted, interrupted_at,
  wakeup_thread,
}
use jsonrpc_tcp_srv.AdTimer.{
  AdTimer, sigalrm, timer_thread_step, timer_thread_at, timer_interrupted,
}
use jsonrpc_tcp_srv.AdTimer.Ticks.{
  Event, alarm, thread_goes_on, has_signal, run, IsCoalesced, run-IsCoalesced,
}

abbrev idle_timer : AdTimer
idle_timer = record {
  stoptimer = false;
  timer_tick_pending = false;
  timer_thread = record {
    th_type = monoshot;
    init_flag = true;
    attached = true;
    thread_state = active;
    started = true;
    finished = false;
    sema = 0;
    place = waiting;
    ctrl = free;
  };
  cleared = false;
  ticks = 0;
}

-- Three alarms while the thread is busy make one tick, and one during its callback the next.
abbrev slow_ticks : List Event
slow_ticks =
    alarm ∷ alarm ∷ alarm ∷ thread_goes_on ∷ thread_goes_on ∷ thread_goes_on ∷ alarm
    ∷ thread_goes_on ∷ thread_goes_on ∷ has_signal ∷ thread_goes_on ∷ thread_goes_on
    ∷ thread_goes_on ∷ thread_goes_on ∷ thread_goes_on ∷ []

slow_ticks_test : (run slow_ticks idle_timer).ticks ≡ 2
unfolding sigalrm timer_thread_step timer_thread_at timer_interrupted my_thread_func thread_at
    interrupted interrupted_at wakeup_thread
slow_ticks_test = refl

run-IsCoalesced_example : IsCoalesced (run slow_ticks idle_timer)
run-IsCoalesced_example = run-IsCoalesced slow_ticks idle_timer (record {
  serving = record { mono = refl; consumer = refl; running = refl; inside = refl };
  single = refl;
  outside = refl;
})
