-- ===== src/AdThread/Wakeups.antt =====
-- lib/lib-jsonrpc-tcp/src/ADThread.cpp: each wakeup of a monoshot thread makes one callback.
use jsonrpc_tcp_srv.Prelude.{ℕ, ◌+◌, Bool, true, false, List, [], ◌∷◌, ◌≡◌, arith, refl}
use jsonrpc_tcp_srv.AdThread.{
  AdThread, Place, loop_head, waiting, woken, calling, returned, leaving, gone, is_active,
  thread_at, my_thread_func, interrupted_at, interrupted, wakeup_thread, is_monoshot,
}
use jsonrpc_tcp_srv.AdThread.Stopping.{Meanwhile, thread_goes_on, has_signal, is_woken, meanwhile}

abbrev calls_at : Place → ℕ
calls_at woken = 1
calls_at loop_head = 0
calls_at waiting = 0
calls_at calling = 0
calls_at returned = 0
calls_at leaving = 0
calls_at gone = 0

-- The callbacks that begin, and the calls of `wakeup_thread`.
abbrev pub callbacks : List Meanwhile → AdThread → ℕ
callbacks [] t = 0
callbacks (thread_goes_on ∷ ms) t = calls_at t.place + callbacks ms (my_thread_func t)
callbacks (has_signal ∷ ms) t = callbacks ms (interrupted t)
callbacks (is_woken ∷ ms) t = callbacks ms (wakeup_thread t)

abbrev pub wakeups : List Meanwhile → ℕ
wakeups [] = 0
wakeups (thread_goes_on ∷ ms) = wakeups ms
wakeups (has_signal ∷ ms) = wakeups ms
wakeups (is_woken ∷ ms) = 1 + wakeups ms

-- The posts that wait, and the one that the thread has taken without having called back yet.
abbrev pub open_wakeups : AdThread → ℕ
open_wakeups t = t.sema + calls_at t.place

abbrev serves : Place → Bool
serves loop_head = true
serves waiting = true
serves woken = true
serves calling = true
serves returned = false
serves leaving = false
serves gone = false

-- A monoshot thread that runs.
pub record IsServing (t : AdThread) : Type 0 where
  pub mono : is_monoshot t.th_type ≡ true
  pub consumer : t.attached ≡ true
  pub running : is_active t.thread_state ≡ true
  pub inside : serves t.place ≡ true

thread_at-IsServing :
    (p : Place) (t : AdThread)
    → t.place ≡ p
    → IsServing t
    → IsServing (thread_at p t) × (open_wakeups t ≡ calls_at t.place + open_wakeups (thread_at p t))
unfolding thread_at
thread_at-IsServing loop_head t at h = ground arith
thread_at-IsServing waiting t at h = ground arith
thread_at-IsServing woken t at h = ground arith
thread_at-IsServing calling t at h = ground arith
thread_at-IsServing returned t at h = ground arith
thread_at-IsServing leaving t at h = ground arith
thread_at-IsServing gone t at h = ground arith

interrupted_at-IsServing :
    (p : Place) (t : AdThread)
    → t.place ≡ p
    → IsServing t
    → IsServing (interrupted_at p t) × (open_wakeups t ≡ open_wakeups (interrupted_at p t))
unfolding interrupted_at
interrupted_at-IsServing loop_head t at h = (h, refl)
interrupted_at-IsServing waiting t at h = ground arith
interrupted_at-IsServing woken t at h = (h, refl)
interrupted_at-IsServing calling t at h = (h, refl)
interrupted_at-IsServing returned t at h = (h, refl)
interrupted_at-IsServing leaving t at h = (h, refl)
interrupted_at-IsServing gone t at h = (h, refl)

wakeup_thread-IsServing :
    (t : AdThread)
    → IsServing t
    → IsServing (wakeup_thread t) × (1 + open_wakeups t ≡ open_wakeups (wakeup_thread t))
unfolding wakeup_thread
wakeup_thread-IsServing t h = ground arith

-- As long as nobody stops a monoshot thread that runs with a consumer, it goes on, and no wakeup is
-- lost or answered twice, whatever signals interrupt its wait: the wakeups, with those that were
-- open, are the callbacks and those that are still open.
pub meanwhile-IsServing :
    (ms : List Meanwhile) (t : AdThread)
    → IsServing t
    → IsServing (meanwhile ms t)
      × (wakeups ms + open_wakeups t ≡ callbacks ms t + open_wakeups (meanwhile ms t))
unfolding my_thread_func interrupted
meanwhile-IsServing [] t h = (h, refl)
meanwhile-IsServing (thread_goes_on ∷ ms) t h =
    let one = thread_at-IsServing t.place t refl h in
    let rest = meanwhile-IsServing ms (my_thread_func t) one.0 in
    (rest.0, omega (arith, one.1, rest.1))
meanwhile-IsServing (has_signal ∷ ms) t h =
    let one = interrupted_at-IsServing t.place t refl h in
    let rest = meanwhile-IsServing ms (interrupted t) one.0 in
    (rest.0, omega (arith, one.1, rest.1))
meanwhile-IsServing (is_woken ∷ ms) t h =
    let one = wakeup_thread-IsServing t h in
    let rest = meanwhile-IsServing ms (wakeup_thread t) one.0 in
    (rest.0, omega (arith, one.1, rest.1))
