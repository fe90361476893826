-- ===== src/AdThread/Soundness.antt =====
-- lib/lib-jsonrpc-tcp/src/ADThread.cpp: what holds of a thread at all times.
use jsonrpc_tcp_srv.Prelude.{Bool, true, false, List, [], ◌∷◌, ◌≡◌, ◌⊎◌, inl, inr, arith, refl}
use jsonrpc_tcp_srv.AdThread.{
  AdThread, Place, loop_head, waiting, woken, calling, returned, leaving, gone, Ctrl, free, posting,
  stopping, starting, ThrdType, new_thread, is_active, subscribe_thread_callback,
  set_thread_properties, thread_at, my_thread_func, interrupted_at, interrupted, create_thread,
  start_thread_at, start_thread, stop_thread_at, stop_thread, wakeup_thread, ctrl_step_at,
  ctrl_step,
}

abbrev pub is_gone : Place → Bool
is_gone gone = true
is_gone loop_head = false
is_gone waiting = false
is_gone woken = false
is_gone calling = false
is_gone returned = false
is_gone leaving = false

abbrev pub is_free : Ctrl → Bool
is_free free = true
is_free (posting _) = false
is_free (stopping _) = false
is_free starting = false

-- `finished` is set exactly when no thread is left. Without `started` there is no thread, the
-- state is inactive and nobody holds the lock; a call that holds it has made the state inactive.
pub record IsSound (t : AdThread) : Type 0 where
  pub ended : t.finished ≡ is_gone t.place
  pub joined : (t.started ≡ true) ⊎ (t.finished ≡ true)
  pub idle : (t.started ≡ true) ⊎ (is_active t.thread_state ≡ false)
  pub unlocked : (t.started ≡ true) ⊎ (is_free t.ctrl ≡ true)
  pub halted : (is_free t.ctrl ≡ true) ⊎ (is_active t.thread_state ≡ false)

pub data Step : Type 0 where
  subscribe : Step
  set_type : ThrdType → Step
  start : Bool → Step
  stop : Bool → Bool → Step
  wake : Step
  thread : Step
  interrupt : Step
  control : Bool → Bool → Step

abbrev pub step : Step → AdThread → AdThread
step subscribe t = (subscribe_thread_callback t).1
step (set_type type) t = set_thread_properties t type
step (start created) t = (start_thread created t).1
step (stop self bounded) t = (stop_thread self bounded t).1
step wake t = wakeup_thread t
step thread t = my_thread_func t
step interrupt t = interrupted t
step (control late created) t = (ctrl_step late created t).1

abbrev pub run : List Step → AdThread → AdThread
run [] t = t
run (s ∷ ss) t = run ss (step s t)

thread_at-IsSound : (p : Place) (t : AdThread) → t.place ≡ p → IsSound t → IsSound (thread_at p t)
unfolding thread_at
thread_at-IsSound loop_head t at h = ground arith
thread_at-IsSound waiting t at h = ground arith
thread_at-IsSound woken t at h = ground arith
thread_at-IsSound calling t at h = ground arith
thread_at-IsSound returned t at h = ground arith
thread_at-IsSound leaving t at h = ground arith
thread_at-IsSound gone t at h = h

interrupted_at-IsSound :
    (p : Place) (t : AdThread) → t.place ≡ p → IsSound t → IsSound (interrupted_at p t)
unfolding interrupted_at
interrupted_at-IsSound loop_head t at h = h
interrupted_at-IsSound waiting t at h = ground arith
interrupted_at-IsSound woken t at h = h
interrupted_at-IsSound calling t at h = h
interrupted_at-IsSound returned t at h = h
interrupted_at-IsSound leaving t at h = h
interrupted_at-IsSound gone t at h = h

start_thread_at-IsSound :
    (c : Ctrl) (created : Bool) (t : AdThread) → IsSound t → IsSound (start_thread_at c created t).1
unfolding start_thread_at create_thread
start_thread_at-IsSound free created t h = ground arith
start_thread_at-IsSound (posting b) created t h = h
start_thread_at-IsSound (stopping b) created t h = h
start_thread_at-IsSound starting created t h = h

stop_thread_at-IsSound :
    (c : Ctrl) (self bounded : Bool) (t : AdThread)
    → IsSound t
    → IsSound (stop_thread_at c self bounded t).1
unfolding stop_thread_at
stop_thread_at-IsSound free self bounded t h = ground arith
stop_thread_at-IsSound (posting b) self bounded t h = h
stop_thread_at-IsSound (stopping b) self bounded t h = h
stop_thread_at-IsSound starting self bounded t h = h

ctrl_step_at-IsSound :
    (c : Ctrl) (late created : Bool) (t : AdThread)
    → t.ctrl ≡ c
    → IsSound t
    → IsSound (ctrl_step_at c late created t).1
unfolding ctrl_step_at create_thread wakeup_thread
ctrl_step_at-IsSound free late created t at h = h
ctrl_step_at-IsSound (posting b) late created t at h = ground arith
ctrl_step_at-IsSound (stopping b) late created t at h = ground arith
ctrl_step_at-IsSound starting late created t at h = ground arith

pub step-IsSound : (s : Step) (t : AdThread) → IsSound t → IsSound (step s t)
unfolding subscribe_thread_callback set_thread_properties start_thread stop_thread wakeup_thread
    my_thread_func interrupted ctrl_step
step-IsSound subscribe t h = ground arith
step-IsSound (set_type type) t h = ground arith
step-IsSound (start created) t h = ground (arith, h, start_thread_at-IsSound t.ctrl created t h)
step-IsSound (stop self bounded) t h = stop_thread_at-IsSound t.ctrl self bounded t h
step-IsSound wake t h = ground arith
step-IsSound thread t h = thread_at-IsSound t.place t refl h
step-IsSound interrupt t h = interrupted_at-IsSound t.place t refl h
step-IsSound (control late created) t h = ctrl_step_at-IsSound t.ctrl late created t refl h

run-from : (ss : List Step) (t : AdThread) → IsSound t → IsSound (run ss t)
run-from [] t h = h
run-from (s ∷ ss) t h = run-from ss (step s t) (step-IsSound s t h)

-- Whatever calls and steps of the thread come in whatever order at a new object: `finished` is set
-- exactly when no thread is left, and while `started` is not set there is no thread, the state is
-- inactive and nobody holds the lock.
pub run-IsSound : (ss : List Step) → IsSound (run ss new_thread)
unfolding new_thread
run-IsSound ss = run-from ss new_thread (record {
  ended = refl;
  joined = inr refl;
  idle = inr refl;
  unlocked = inr refl;
  halted = inl refl;
})
