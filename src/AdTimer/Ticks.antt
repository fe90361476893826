-- ===== src/AdTimer/Ticks.antt =====
-- lib/lib-jsonrpc-tcp/src/ADTimer.cpp: the period that is set, and ticks that do not pile up.
use jsonrpc_tcp_srv.Prelude.{
  ℕ, ◌+◌, ◌*◌, ltb, Bool, true, false, List, [], ◌∷◌, if◌then◌else◌, ◌≡◌, refl, arith,
}
use jsonrpc_tcp_srv.AdThread.{
  Place, loop_head, waiting, woken, calling, returned, leaving, gone, my_thread_func, thread_at,
  interrupted, interrupted_at, wakeup_thread,
}
use jsonrpc_tcp_srv.AdThread.Wakeups.{IsServing}
use jsonrpc_tcp_srv.AdTimer.{
  AdTimer, start_millisec_timer, sigalrm, timer_thread_at, timer_thread_step, timer_interrupted,
}

-- The interval that is set is the period, and `setitimer` takes its microseconds.
start_millisec_timer_lem :
    (ms : ℕ)
    → ((start_millisec_timer ms).tv_sec * 1000000 + (start_millisec_timer ms).tv_usec ≡ ms * 1000)
      × (ltb (start_millisec_timer ms).tv_usec 1000000 ≡ true)
unfolding start_millisec_timer
start_millisec_timer_lem ms = ground arith

pub data Event : Type 0 where
  alarm thread_goes_on has_signal : Event

abbrev pub next_state : Event → AdTimer → AdTimer
next_state alarm t = sigalrm t
next_state thread_goes_on t = timer_thread_step t
next_state has_signal t = timer_interrupted t

abbrev pub run : List Event → AdTimer → AdTimer
run [] t = t
run (e ∷ es) t = run es (next_state e t)

-- A tick that the thread has taken and not acknowledged.
abbrev taken_at : Place → Bool → ℕ
taken_at calling cleared = if cleared then 0 else 1
taken_at woken cleared = 1
taken_at loop_head cleared = 0
taken_at waiting cleared = 0
taken_at returned cleared = 0
taken_at leaving cleared = 0
taken_at gone cleared = 0

abbrev open_ticks : AdTimer → ℕ
open_ticks t = t.timer_thread.sema + taken_at t.timer_thread.place t.cleared

abbrev is_calling : Place → Bool
is_calling calling = true
is_calling woken = false
is_calling loop_head = false
is_calling waiting = false
is_calling returned = false
is_calling leaving = false
is_calling gone = false

-- The thread serves; a tick is open exactly when one is pending, and never more than one.
pub record IsCoalesced (t : AdTimer) : Type 0 where
  pub serving : IsServing t.timer_thread
  pub single : open_ticks t ≡ (if t.timer_tick_pending then 1 else 0)
  pub outside : (if is_calling t.timer_thread.place then false else t.cleared) ≡ false

timer_thread_at-IsCoalesced :
    (p : Place) (t : AdTimer)
    → t.timer_thread.place ≡ p
    → IsCoalesced t
    → IsCoalesced (timer_thread_at p t)
unfolding timer_thread_at my_thread_func thread_at
timer_thread_at-IsCoalesced loop_head t at h = ground arith
timer_thread_at-IsCoalesced waiting t at h = ground arith
timer_thread_at-IsCoalesced woken t at h = ground arith
timer_thread_at-IsCoalesced calling t at h = ground arith
timer_thread_at-IsCoalesced returned t at h = ground arith
timer_thread_at-IsCoalesced leaving t at h = ground arith
timer_thread_at-IsCoalesced gone t at h = ground arith

interrupted-IsCoalesced :
    (p : Place) (t : AdTimer)
    → t.timer_thread.place ≡ p
    → IsCoalesced t
    → IsCoalesced (record t { timer_thread = interrupted_at p t.timer_thread })
unfolding interrupted_at
interrupted-IsCoalesced loop_head t at h = h
interrupted-IsCoalesced waiting t at h = ground arith
interrupted-IsCoalesced woken t at h = h
interrupted-IsCoalesced calling t at h = h
interrupted-IsCoalesced returned t at h = h
interrupted-IsCoalesced leaving t at h = h
interrupted-IsCoalesced gone t at h = h

sigalrm-IsCoalesced : (t : AdTimer) → IsCoalesced t → IsCoalesced (sigalrm t)
unfolding sigalrm wakeup_thread
sigalrm-IsCoalesced t h = ground arith

next_state-IsCoalesced : (e : Event) (t : AdTimer) → IsCoalesced t → IsCoalesced (next_state e t)
unfolding timer_thread_step timer_interrupted interrupted
next_state-IsCoalesced alarm t h = sigalrm-IsCoalesced t h
next_state-IsCoalesced thread_goes_on t h =
    timer_thread_at-IsCoalesced t.timer_thread.place t refl h
next_state-IsCoalesced has_signal t h = interrupted-IsCoalesced t.timer_thread.place t refl h

-- While the timer's thread serves and nobody stops it: however the alarms, the thread's steps and
-- signals interleave, a tick is open (posted, or taken and not acknowledged by the callback) exactly
-- when timer_tick_pending is set, and there is never more than one, so that ticks do not pile up.
pub run-IsCoalesced : (es : List Event) (t : AdTimer) → IsCoalesced t → IsCoalesced (run es t)
run-IsCoalesced [] t h = h
run-IsCoalesced (e ∷ es) t h = run-IsCoalesced es (next_state e t) (next_state-IsCoalesced e t h)
