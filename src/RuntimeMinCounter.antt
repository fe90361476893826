-- ===== src/RuntimeMinCounter.antt =====
-- lib/lib-jsonrpc-tcp/src/ADRuntimeMinCounter.cpp: the minutes that a service has been running. An
-- unsigned long has 32 bits, as on the target boards. The heartbeat's milliseconds are not negative.
-- The argument of `timer_notification` is what a read of /proc/uptime gives, none when it fails.
pub mod Drift
mod Tests
use Prim.Native.Nat.{◌%◌, ◌/◌}
use jsonrpc_tcp_srv.Prelude.{ℕ, ◌+◌, ◌-◌, Bool, true, false, Option, none, some, leb, if◌then◌else◌}

abbrev pub word : ℕ
word = 4294967296

abbrev pub ten_seconds : ℕ
ten_seconds = 10000

pub record RuntimeMinCounter : Type 0 where
  pub counter : ℕ
  pub counting : Bool
  pub heartbeat_ms_time : ℕ
  pub current_uptime_sec : ℕ
  pub last_uptime_sec : ℕ
  pub ten_sec_counter : ℕ
  pub has_timer : Bool

pub new_counter : RuntimeMinCounter
new_counter = record {
  counter = 0;
  counting = false;
  heartbeat_ms_time = 100;
  current_uptime_sec = 0;
  last_uptime_sec = 0;
  ten_sec_counter = 0;
  has_timer = false;
}

pub attach_heart_beat : RuntimeMinCounter → ℕ → RuntimeMinCounter
attach_heart_beat c time_ms =
    if c.has_timer then c else record c { has_timer = true; heartbeat_ms_time = time_ms }

-- The result is false for the return code -1.
pub start_counting : RuntimeMinCounter → Option ℕ → Bool × RuntimeMinCounter
start_counting c none = if c.has_timer then (true, record c { counting = true }) else (false, c)
start_counting c (some uptime) =
    if c.has_timer
    then (true, record c { last_uptime_sec = uptime; counting = true })
    else (false, c)

pub stop_counting : RuntimeMinCounter → RuntimeMinCounter
stop_counting c = record c { counting = false }

pub increase_minute_count : RuntimeMinCounter → ℕ → RuntimeMinCounter
increase_minute_count c new_val = record c { counter = (c.counter + new_val) % word }

pub set_counter_value : RuntimeMinCounter → ℕ → RuntimeMinCounter
set_counter_value c minutes = record c { counter = minutes }

pub elapsed : RuntimeMinCounter → ℕ
elapsed c = ((c.current_uptime_sec + word) - c.last_uptime_sec) % word

-- The part behind the successful read.
pub count_minutes : RuntimeMinCounter → RuntimeMinCounter
unfolding elapsed increase_minute_count
count_minutes c =
    if leb 60 (elapsed c)
    then record (increase_minute_count c (elapsed c / 60)) {
      last_uptime_sec = c.current_uptime_sec;
    }
    else c

pub ten_seconds_passed : RuntimeMinCounter → Option ℕ → RuntimeMinCounter
unfolding count_minutes
ten_seconds_passed c none = c
ten_seconds_passed c (some uptime) = count_minutes (record c { current_uptime_sec = uptime })

pub timer_notification : RuntimeMinCounter → Option ℕ → RuntimeMinCounter
unfolding ten_seconds_passed
timer_notification c uptime =
    if c.counting
    then if leb ten_seconds (c.ten_sec_counter + c.heartbeat_ms_time)
      then ten_seconds_passed (record c { ten_sec_counter = 0 }) uptime
      else record c { ten_sec_counter = c.ten_sec_counter + c.heartbeat_ms_time }
    else c
