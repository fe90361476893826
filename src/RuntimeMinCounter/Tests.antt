-- ===== src/RuntimeMinCounter/Tests.antt =====
-- Tests and examples of ADRuntimeMinCounter.
use jsonrpc_tcp_srv.Prelude.{ℕ, true, List, [], ◌∷◌, Option, some, none, ◌≡◌, refl}
use jsonrpc_tcp_srv.RuntimeMinCounter.{
  RuntimeMinCounter, new_counter, attach_heart_beat, start_counting, timer_notification,
  ten_seconds_passed, count_minutes, elapsed, increase_minute_count,
}
use jsonrpc_tcp_srv.RuntimeMinCounter.Drift.{IsNear, notifications, notifications-IsNear}

-- A counter that was started 100 seconds after the boot, with a heartbeat of 10 s.
abbrev started_counter : RuntimeMinCounter
started_counter = record {
  counter = 0;
  counting = true;
  heartbeat_ms_time = 10000;
  current_uptime_sec = 0;
  last_uptime_sec = 100;
  ten_sec_counter = 0;
  has_timer = true;
}

started_counter_test :
    start_counting (attach_heart_beat new_counter 10000) (some 100) ≡ (true, started_counter)
unfolding new_counter attach_heart_beat start_counting
started_counter_test = refl

abbrev readings : List (Option ℕ)
readings = some 110 ∷ none ∷ some 219 ∷ some 280 ∷ []

-- 180 seconds, of which two minutes are counted.
readings_test : (notifications readings started_counter).counter ≡ 2
unfolding timer_notification ten_seconds_passed count_minutes elapsed increase_minute_count
readings_test = refl

notifications-IsNear_example : IsNear started_counter (notifications readings started_counter)
notifications-IsNear_example = notifications-IsNear readings 100 started_counter refl refl refl
