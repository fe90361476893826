-- ===== src/RuntimeMinCounter/Drift.antt =====
-- lib/lib-jsonrpc-tcp/src/ADRuntimeMinCounter.cpp: how far the counted minutes are from the uptime.
use Prim.Native.Nat.{◌*◌}
use jsonrpc_tcp_srv.Prelude.{
  ℕ, ◌+◌, Bool, true, ◌&&◌, List, [], ◌∷◌, Option, none, some, leb, ◌≡◌, arith,
}
use jsonrpc_tcp_srv.RuntimeMinCounter.{
  RuntimeMinCounter, word, elapsed, increase_minute_count, count_minutes, ten_seconds_passed,
  timer_notification,
}

-- Uptimes do not fall, and fit in a word.
abbrev pub rises : ℕ → List (Option ℕ) → Bool
rises last [] = true
rises last (none ∷ rs) = rises last rs
rises last (some u ∷ rs) = leb last u && (leb (u + 1) word && rises u rs)

abbrev pub notifications : List (Option ℕ) → RuntimeMinCounter → RuntimeMinCounter
notifications [] c = c
notifications (r ∷ rs) c = notifications rs (timer_notification c r)

-- From `c` to `d`: the minutes that were counted take
-- no longer than the time between the two starts of a minute, and that time is at most twice as long.
pub record IsNear (c d : RuntimeMinCounter) : Type 0 where
  pub forward : leb c.last_uptime_sec d.last_uptime_sec ≡ true
  pub no_more : leb (60 * d.counter + c.last_uptime_sec) (60 * c.counter + d.last_uptime_sec) ≡ true
  pub no_less :
      leb (d.last_uptime_sec + 120 * c.counter) (c.last_uptime_sec + 120 * d.counter) ≡ true

-- What the run that led to `c` has kept: it cannot have counted more than it saw pass.
abbrev pub is_small : RuntimeMinCounter → Bool
is_small c = leb (60 * c.counter) (60 * 4000000000 + c.last_uptime_sec)

timer_notification-none :
    (c : RuntimeMinCounter)
    → IsNear c (timer_notification c none)
      × ((timer_notification c none).last_uptime_sec ≡ c.last_uptime_sec)
unfolding timer_notification ten_seconds_passed
timer_notification-none c = ground arith

timer_notification-some :
    (c : RuntimeMinCounter) (u : ℕ)
    → leb c.last_uptime_sec u ≡ true
    → leb (u + 1) word ≡ true
    → is_small c ≡ true
    → IsNear c (timer_notification c (some u))
      × (leb (timer_notification c (some u)).last_uptime_sec u ≡ true)
unfolding timer_notification ten_seconds_passed count_minutes elapsed increase_minute_count
timer_notification-some c u up fits small = ground (arith, up, fits, small)

join-IsNear : (c d e : RuntimeMinCounter) → IsNear c d → IsNear d e → IsNear c e
join-IsNear c d e h k =
    ground (arith, h.forward, h.no_more, h.no_less, k.forward, k.no_more, k.no_less)

still_small : (c d : RuntimeMinCounter) → IsNear c d → is_small c ≡ true → is_small d ≡ true
still_small c d h small = ground (arith, h.no_more, small)

-- While the uptimes that are read do not fall, are not below the last one counted and fit in a word,
-- and the counter begins at most 4000000000 minutes above that one: the last uptime counted does not
-- go back, the minutes counted take no longer than the uptime from the old one to the new one, and
-- that takes at most twice as long as the minutes counted.
pub notifications-IsNear :
    (rs : List (Option ℕ)) (low : ℕ) (c : RuntimeMinCounter)
    → rises low rs ≡ true
    → leb c.last_uptime_sec low ≡ true
    → is_small c ≡ true
    → IsNear c (notifications rs c)
notifications-IsNear [] low c rising above small = ground arith
notifications-IsNear (none ∷ rs) low c rising above small =
    let one = timer_notification-none c in
    join-IsNear c (timer_notification c none) (notifications rs (timer_notification c none)) one.0 (
      notifications-IsNear rs low (timer_notification c none) rising (ground (arith, one.1, above))
        (still_small c (timer_notification c none) one.0 small))
notifications-IsNear (some u ∷ rs) low c rising above small =
    let one =
      timer_notification-some c u (ground (arith, rising, above)) (ground (arith, rising)) small in
    join-IsNear c (timer_notification c (some u)) (notifications rs (timer_notification c (some u)))
      one.0
      (notifications-IsNear rs u (timer_notification c (some u)) (ground (arith, rising)) one.1
        (still_small c (timer_notification c (some u)) one.0 small))
