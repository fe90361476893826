-- ===== src/AdThread/Stopping.antt =====
-- lib/lib-jsonrpc-tcp/src/ADThread.cpp: a stop request ends the thread.
use jsonrpc_tcp_srv.Prelude.{
  ℕ, ◌+◌, leb, Bool, true, false, List, [], ◌∷◌, Option, some, ℤ, pos, ◌≡◌, ◌⊎◌, ◌∙◌, ap, arith,
  refl,
}
use jsonrpc_tcp_srv.AdThread.{
  AdThread, Place, loop_head, waiting, woken, calling, returned, leaving, gone, free, stopping,
  is_active, thread_at, my_thread_func, interrupted_at, interrupted, stop_thread_at, stop_thread,
  wakeup_thread, ctrl_step_at, ctrl_step, is_monoshot,
}
use jsonrpc_tcp_srv.AdThread.Soundness.{is_gone, IsSound}

-- What happens beside the thread's callers: its own steps, signals, and wakeups by others.
pub data Meanwhile : Type 0 where
  thread_goes_on has_signal is_woken : Meanwhile

abbrev pub next_state : Meanwhile → AdThread → AdThread
next_state thread_goes_on t = my_thread_func t
next_state has_signal t = interrupted t
next_state is_woken t = wakeup_thread t

abbrev pub meanwhile : List Meanwhile → AdThread → AdThread
meanwhile [] t = t
meanwhile (m ∷ ms) t = meanwhile ms (next_state m t)

-- The steps that the thread makes itself.
abbrev pub own_steps : List Meanwhile → ℕ
own_steps [] = 0
own_steps (thread_goes_on ∷ ms) = 1 + own_steps ms
own_steps (has_signal ∷ ms) = own_steps ms
own_steps (is_woken ∷ ms) = own_steps ms

-- How many steps a thread that is to stop may still make.
abbrev steps_left : Place → ℕ
steps_left gone = 0
steps_left leaving = 1
steps_left loop_head = 2
steps_left woken = 2
steps_left returned = 2
steps_left waiting = 3
steps_left calling = 3

abbrev is_waiting : Place → Bool
is_waiting waiting = true
is_waiting gone = false
is_waiting leaving = false
is_waiting loop_head = false
is_waiting woken = false
is_waiting returned = false
is_waiting calling = false

-- The stop is requested, and a waiting thread has its post.
record IsStopping (b : Bool) (n : ℕ) (t : AdThread) : Type 0 where
  request : is_active t.thread_state ≡ false
  post : (is_waiting t.place ≡ false) ⊎ (leb 1 t.sema ≡ true)
  left : leb (steps_left t.place) n ≡ true
  ended : t.finished ≡ is_gone t.place
  held : t.ctrl ≡ stopping b

thread_at-IsStopping :
    (b : Bool) (n : ℕ) (p : Place) (t : AdThread)
    → t.place ≡ p
    → IsStopping b (1 + n) t
    → IsStopping b n (thread_at p t)
unfolding thread_at
thread_at-IsStopping b n loop_head t at h = ground arith
thread_at-IsStopping b n waiting t at h = ground arith
thread_at-IsStopping b n woken t at h = ground arith
thread_at-IsStopping b n calling t at h = ground arith
thread_at-IsStopping b n returned t at h = ground arith
thread_at-IsStopping b n leaving t at h = ground arith
thread_at-IsStopping b n gone t at h = ground arith

interrupted_at-IsStopping :
    (b : Bool) (n : ℕ) (p : Place) (t : AdThread)
    → t.place ≡ p
    → IsStopping b n t
    → IsStopping b n (interrupted_at p t)
unfolding interrupted_at
interrupted_at-IsStopping b n loop_head t at h = h
interrupted_at-IsStopping b n waiting t at h = ground arith
interrupted_at-IsStopping b n woken t at h = h
interrupted_at-IsStopping b n calling t at h = h
interrupted_at-IsStopping b n returned t at h = h
interrupted_at-IsStopping b n leaving t at h = h
interrupted_at-IsStopping b n gone t at h = h

wakeup_thread-IsStopping :
    (b : Bool) (n : ℕ) (t : AdThread) → IsStopping b n t → IsStopping b n (wakeup_thread t)
unfolding wakeup_thread
wakeup_thread-IsStopping b n t h = ground arith

meanwhile-IsStopping :
    (b : Bool) (ms : List Meanwhile) (n : ℕ) (t : AdThread)
    → IsStopping b (own_steps ms + n) t
    → IsStopping b n (meanwhile ms t)
unfolding my_thread_func interrupted
meanwhile-IsStopping b [] n t h = record {
  request = h.request;
  post = h.post;
  left = ground arith;
  ended = h.ended;
  held = h.held;
}
meanwhile-IsStopping b (thread_goes_on ∷ ms) n t h =
    meanwhile-IsStopping b ms n (my_thread_func t) (
      thread_at-IsStopping b (own_steps ms + n) t.place t refl (record {
        request = h.request;
        post = h.post;
        left = ground arith;
        ended = h.ended;
        held = h.held;
      }))
meanwhile-IsStopping b (has_signal ∷ ms) n t h =
    meanwhile-IsStopping b ms n (interrupted t)
      (interrupted_at-IsStopping b (own_steps ms + n) t.place t refl h)
meanwhile-IsStopping b (is_woken ∷ ms) n t h =
    meanwhile-IsStopping b ms n (wakeup_thread t)
      (wakeup_thread-IsStopping b (own_steps ms + n) t h)

-- `stop_thread`, with its post, and what `join_thread` answers at its next look.
pub stopped_after : Bool → Bool → List Meanwhile → AdThread → Option ℤ × AdThread
unfolding stop_thread ctrl_step
stopped_after bounded late ms t =
    ctrl_step late true (meanwhile ms (ctrl_step false true (stop_thread false bounded t).1).1)

steps_left-bound : (p : Place) → leb (steps_left p) 3 ≡ true
steps_left-bound gone = refl
steps_left-bound leaving = refl
steps_left-bound loop_head = refl
steps_left-bound woken = refl
steps_left-bound returned = refl
steps_left-bound waiting = refl
steps_left-bound calling = refl

posted-IsStopping :
    (bounded : Bool) (n : ℕ) (t : AdThread)
    → is_monoshot t.th_type ≡ true
    → t.finished ≡ is_gone t.place
    → t.ctrl ≡ free
    → t.started ≡ true
    → leb 3 n ≡ true
    → IsStopping bounded n (ctrl_step false true (stop_thread false bounded t).1).1
unfolding stop_thread stop_thread_at ctrl_step ctrl_step_at wakeup_thread
posted-IsStopping bounded n t mono ended unlocked started enough =
    ground (arith, steps_left-bound t.place)

gone_of : (p : Place) → leb (steps_left p) 0 ≡ true → p ≡ gone
gone_of gone e = refl
gone_of leaving e = ground (arith, e)
gone_of loop_head e = ground (arith, e)
gone_of woken e = ground (arith, e)
gone_of returned e = ground (arith, e)
gone_of waiting e = ground (arith, e)
gone_of calling e = ground (arith, e)

ctrl_step-gone :
    (b late : Bool) (t : AdThread)
    → IsStopping b 0 t
    → ((ctrl_step late true t).0 ≡ some (pos 0))
      × ((ctrl_step late true t).1.place ≡ gone)
      × ((ctrl_step late true t).1.started ≡ false)
unfolding ctrl_step ctrl_step_at
ctrl_step-gone b late t h =
    let away = gone_of t.place h.left in
    let over : t.finished ≡ true = h.ended ∙ ap is_gone away in
    let is : (some (pos 0), record t { started = false; ctrl = free }) ≡ ctrl_step late true t =
      ground arith in
    (ground arith, ground arith, ground arith)

-- When a thread of type monoshot is to be stopped, from another thread and with the lock free, its
-- thread function makes at most three more steps, the return of a callback that runs among them,
-- whatever signals and wakeups come between: the next look of `join_thread` finds it gone, and
-- `stop_thread` returns 0, with or without a limit on its wait.
pub stopped_after-gone :
    (bounded late : Bool) (ms : List Meanwhile) (t : AdThread)
    → IsSound t
    → is_monoshot t.th_type ≡ true
    → t.ctrl ≡ free
    → t.started ≡ true
    → leb 3 (own_steps ms) ≡ true
    → ((stopped_after bounded late ms t).0 ≡ some (pos 0))
      × ((stopped_after bounded late ms t).1.place ≡ gone)
      × ((stopped_after bounded late ms t).1.started ≡ false)
unfolding stopped_after ctrl_step ctrl_step_at
stopped_after-gone bounded late ms t h mono unlocked started enough =
    ctrl_step-gone bounded late
      (meanwhile ms (ctrl_step false true (stop_thread false bounded t).1).1)
      (meanwhile-IsStopping bounded ms 0 (ctrl_step false true (stop_thread false bounded t).1).1 (
        posted-IsStopping bounded (own_steps ms + 0) t mono h.ended unlocked started
          (ground arith)))
