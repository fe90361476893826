-- ===== src/AdThread.antt =====
-- lib/lib-jsonrpc-tcp/src/ADThread.cpp and include/ADThread.hpp: the thread that every service starts,
-- wakes and stops. `place` is where its thread function stands, `ctrl` who holds `ctrl_lock`. Each
-- atomic access is a step of its own, but for those of `start_thread`, at which no thread runs.
pub mod Soundness
pub mod Stopping
pub mod Wakeups
mod Tests
use jsonrpc_tcp_srv.Prelude.{
  ℕ, ◌+◌, ◌-◌, Bool, true, false, not, Option, none, some, ◌==◌, if◌then◌else◌, ℤ, pos, minus_one,
}

pub data ThrdState : Type 0 where
  inactive active no_state : ThrdState

pub data ThrdType : Type 0 where
  monoshot noblock no_type : ThrdType

-- Before the test of the loop, in `sem_wait`, behind it, in the user's callback, behind a callback
-- that is not a monoshot, before the last store, and no thread at all.
pub data Place : Type 0 where
  loop_head waiting woken calling returned leaving gone : Place

-- Nobody; `stop_thread` before its post and in `join_thread`; `start_thread` in `join_thread`. The
-- flag says that `max_wait_ms` is not negative.
pub data Ctrl : Type 0 where
  free : Ctrl
  posting stopping : Bool → Ctrl
  starting : Ctrl

-- `attached` is a consumer, and `sema` the value of one_shot_sema.
pub record AdThread : Type 0 where
  pub th_type : ThrdType
  pub init_flag : Bool
  pub attached : Bool
  pub thread_state : ThrdState
  pub started : Bool
  pub finished : Bool
  pub sema : ℕ
  pub place : Place
  pub ctrl : Ctrl

abbrev pub etimedout : ℤ
etimedout = pos 110

pub new_thread : AdThread
new_thread = record {
  th_type = no_type;
  init_flag = false;
  attached = false;
  thread_state = inactive;
  started = false;
  finished = true;
  sema = 0;
  place = gone;
  ctrl = free;
}

abbrev pub is_active : ThrdState → Bool
is_active inactive = false
is_active active = true
is_active no_state = false

abbrev pub is_monoshot : ThrdType → Bool
is_monoshot monoshot = true
is_monoshot noblock = false
is_monoshot no_type = false

pub subscribe_thread_callback : AdThread → Bool × AdThread
subscribe_thread_callback t =
    if t.attached then (false, t) else (true, record t { attached = true })

pub set_thread_properties : AdThread → ThrdType → AdThread
set_thread_properties t type = record t { th_type = type; init_flag = true }

-- One step of `my_thread_func`, from a place in it. A thread that waits for a post stays.
unfoldable pub thread_at : Place → AdThread → AdThread
thread_at loop_head t =
    if is_active t.thread_state
    then if is_monoshot t.th_type
      then record t { place = waiting }
      else if t.attached
      then record t { place = calling }
      else record t { place = returned }
    else record t { place = leaving }
thread_at waiting t = if t.sema == 0 then t else record t { sema = t.sema - 1; place = woken }
thread_at woken t =
    if is_active t.thread_state
    then if t.attached then record t { place = calling } else record t { place = loop_head }
    else record t { place = leaving }
thread_at calling t =
    if is_monoshot t.th_type then record t { place = loop_head } else record t { place = returned }
thread_at returned t = record t { thread_state = inactive; place = leaving }
thread_at leaving t = record t { finished = true; place = gone }
thread_at gone t = t

unfoldable pub my_thread_func : AdThread → AdThread
unfolding thread_at
my_thread_func t = thread_at t.place t

-- `sem_wait` returns EINTR.
unfoldable pub interrupted_at : Place → AdThread → AdThread
interrupted_at waiting t = record t { place = loop_head }
interrupted_at _ t = t

unfoldable pub interrupted : AdThread → AdThread
unfolding interrupted_at
interrupted t = interrupted_at t.place t

-- The part of `start_thread` that makes the thread; `created` is what `pthread_create` does.
pub create_thread : Bool → AdThread → Option ℤ × AdThread
create_thread created t =
    if created
    then (
      some (pos 0),
      record t {
        sema = 0;
        thread_state = active;
        finished = false;
        place = loop_head;
        started = true;
        ctrl = free;
      },
    )
    else (
      some minus_one,
      record t { sema = 0; thread_state = inactive; finished = true; started = false; ctrl = free },
    )

-- The result is none while the call waits. A caller that does not get the lock waits.
pub start_thread_at : Ctrl → Bool → AdThread → Option ℤ × AdThread
unfolding create_thread
start_thread_at free created t =
    if t.started
    then if is_active t.thread_state
      then (some minus_one, t)
      else (none, record t { ctrl = starting })
    else create_thread created t
start_thread_at _ created t = (none, t)

pub start_thread : Bool → AdThread → Option ℤ × AdThread
unfolding start_thread_at
start_thread created t =
    if t.init_flag then start_thread_at t.ctrl created t else (some minus_one, t)

-- `self` says that the thread itself calls.
pub stop_thread_at : Ctrl → Bool → Bool → AdThread → Option ℤ × AdThread
stop_thread_at free self bounded t =
    if not t.started
    then (some minus_one, t)
    else if self
    then (some (pos 0), record t { thread_state = inactive })
    else (none, record t { thread_state = inactive; ctrl = posting bounded })
stop_thread_at _ self bounded t = (none, t)

pub stop_thread : Bool → Bool → AdThread → Option ℤ × AdThread
unfolding stop_thread_at
stop_thread self bounded t = stop_thread_at t.ctrl self bounded t

unfoldable pub wakeup_thread : AdThread → AdThread
wakeup_thread t = if is_monoshot t.th_type then record t { sema = t.sema + 1 } else t

-- The next step of the call that holds the lock: the post, or a look of `join_thread` at
-- `finished`; `late` says that `max_wait_ms` have passed.
pub ctrl_step_at : Ctrl → Bool → Bool → AdThread → Option ℤ × AdThread
unfolding create_thread wakeup_thread
ctrl_step_at free late created t = (none, t)
ctrl_step_at (posting bounded) late created t =
    (none, record (wakeup_thread t) { ctrl = stopping bounded })
ctrl_step_at (stopping bounded) late created t =
    if t.finished
    then (some (pos 0), record t { started = false; ctrl = free })
    else if bounded
    then if late then (some etimedout, record t { ctrl = free }) else (none, t)
    else (none, t)
ctrl_step_at starting late created t = if t.finished then create_thread created t else (none, t)

pub ctrl_step : Bool → Bool → AdThread → Option ℤ × AdThread
unfolding ctrl_step_at
ctrl_step late created t = ctrl_step_at t.ctrl late created t
