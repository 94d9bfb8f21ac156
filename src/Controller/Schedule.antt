-- ===== src/Controller/Schedule.antt =====
-- controller/src/index.ts, `backupLoop`: how long it waits for the next backup. The time of day is
-- local, in milliseconds since midnight, on a day of 24 hours.
pub mod Loops
use foxplay_game.Common.{ℕ, ◌+◌, ◌-◌, ◌*◌, ◌/◌, ◌<◌, ◌≤◌, ◌≡◌, ◌⊎◌, arith, ltb, if◌then◌else◌}

abbrev pub hour : ℕ
hour = 3600000

-- `next`, after `setSeconds(0, 0)`, `setMinutes(0)` and `setHours(…)`
unfoldable pub next_backup : ℕ → ℕ
next_backup now = (if ltb (now / hour) 12 then 12 else 24) * hour

-- `next.getTime() - now.getTime()`
unfoldable pub backup_delay : ℕ → ℕ
unfolding next_backup
backup_delay now = next_backup now - now

-- At any time of the day the wait is positive and at most twelve hours, and it ends at noon or at
-- midnight.
pub backup_delay_bounds :
    (now : ℕ)
    → now < 24 * hour
    → (0 < backup_delay now)
      × (backup_delay now ≤ 12 * hour)
      × ((now + backup_delay now ≡ 12 * hour) ⊎ (now + backup_delay now ≡ 24 * hour))
unfolding backup_delay
backup_delay_bounds now h = ground arith
