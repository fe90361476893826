-- ===== src/AdTimer.antt =====
-- lib/lib-jsonrpc-tcp/src/ADTimer.cpp: the interval timer and its ticks. `cleared` says that the
-- callback of the timer's thread has stored 0 in timer_tick_pending, its first act. Periods are not
-- negative.
pub mod Ticks
mod Tests
use jsonrpc_tcp_srv.Prelude.{ℕ, ◌+◌, ◌*◌, ◌/◌, ◌%◌, Bool, true, false, ltb, if◌then◌else◌}
use jsonrpc_tcp_srv.AdThread.{
  AdThread, Place, loop_head, waiting, woken, calling, returned, leaving, gone, my_thread_func,
  interrupted, wakeup_thread,
}

-- `it_value` and `it_interval`, which are the same.
pub record Timeval : Type 0 where
  pub tv_sec : ℕ
  pub tv_usec : ℕ

pub start_millisec_timer : ℕ → Timeval
start_millisec_timer ms =
    if ltb ms 1000
    then record { tv_sec = 0; tv_usec = ms * 1000 }
    else record { tv_sec = ms / 1000; tv_usec = (ms % 1000) * 1000 }

-- `ticks` counts the calls of notify_subscribers.
pub record AdTimer : Type 0 where
  pub stoptimer : Bool
  pub timer_tick_pending : Bool
  pub timer_thread : AdThread
  pub cleared : Bool
  pub ticks : ℕ

-- The case SIGALRM of `wait_for_exit_signal`.
pub sigalrm : AdTimer → AdTimer
sigalrm t =
    if t.stoptimer
    then t
    else if t.timer_tick_pending
    then t
    else record t { timer_tick_pending = true; timer_thread = wakeup_thread t.timer_thread }

-- A step of the timer's thread; in the callback, first the store and then the subscribers.
pub timer_thread_at : Place → AdTimer → AdTimer
timer_thread_at calling t =
    if t.cleared
    then record t {
      timer_thread = my_thread_func t.timer_thread;
      cleared = false;
      ticks = t.ticks + 1;
    }
    else record t { timer_tick_pending = false; cleared = true }
timer_thread_at loop_head t = record t { timer_thread = my_thread_func t.timer_thread }
timer_thread_at waiting t = record t { timer_thread = my_thread_func t.timer_thread }
timer_thread_at woken t = record t { timer_thread = my_thread_func t.timer_thread }
timer_thread_at returned t = record t { timer_thread = my_thread_func t.timer_thread }
timer_thread_at leaving t = record t { timer_thread = my_thread_func t.timer_thread }
timer_thread_at gone t = record t { timer_thread = my_thread_func t.timer_thread }

pub timer_thread_step : AdTimer → AdTimer
unfolding timer_thread_at
timer_thread_step t = timer_thread_at t.timer_thread.place t

pub timer_interrupted : AdTimer → AdTimer
timer_interrupted t = record t { timer_thread = interrupted t.timer_thread }
