-- ===== src/Format/Elapsed.antt =====
-- How far the rounded words of `relativeTime` are from the time that has passed.
use workflow_enterprise_comp.Prelude.{ℕ, ◌+◌, ◌*◌, ◌≤◌, ◌<◌, arith, pos}
use workflow_enterprise_comp.Format.{
  Relative, just_now, minutes, hours, days, on_date, relative, seconds,
}

-- What each answer says of the milliseconds that have passed.
abbrev pub Tells : ℕ → Relative → Type 0
Tells d just_now = d < 44500
Tells d (minutes m) = (1 ≤ m) × (m ≤ 59) × (60000 * m ≤ d + 30500) × (d < 60000 * m + 30500)
Tells d (hours h) = (1 ≤ h) × (h ≤ 23) × (3600000 * h ≤ d + 1830500) × (d < 3600000 * h + 1830500)
Tells d (days n) =
    (1 ≤ n) × (n ≤ 29) × (86400000 * n ≤ d + 45030500) × (d < 86400000 * n + 45030500)
Tells d on_date = 86400000 * 30 ≤ d + 45030500

-- For a time in the past, "just now" is said below 44.5 seconds; minutes run from 1 to 59 and are
-- at most 30.5 seconds off, hours run from 1 to 23 and are at most 30.5 minutes and half a second
-- off, days run from 1 to 29 and are at most 12.5 hours and 30.5 seconds off; and the date is
-- printed only from about 29 and a half days on.
pub relative-Tells : (d : ℕ) → Tells d (relative (pos d))
unfolding relative seconds
relative-Tells d = ground arith
