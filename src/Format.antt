-- ===== src/Format.antt =====
-- The formatting helpers of frontend/src/lib/format.ts. Reading and printing a date is the
-- browser's (`Date`, `Intl.DateTimeFormat`): a `Calendar`, with dates as milliseconds since 1970.
pub mod Elapsed
use Prim.Native.String
use workflow_enterprise_comp.Prelude.{
  ℕ, zero, suc, ◌+◌, ◌-◌, ◌*◌, ◌/◌, String, Bool, Option, none, some, nonempty, str_eq, ltb,
  if◌then◌else◌, ℤ, pos, negsuc, ◌-ℤ◌, sub_ℕ, decimal, ◌+s◌, take, size,
}

pub record Calendar : Type 0 where
  -- `new Date(iso).getTime()`, where that is a number.
  pub read : String → Option ℤ
  pub date : ℤ → String
  pub date_time : ℤ → String
  pub time : ℤ → String
  -- `toDateString`.
  pub day : ℤ → String

abbrev pub dash : String
dash = "—"

module _ (c : Calendar) where
  parse : Option String → Option ℤ
  parse none = none
  parse (some iso) = if nonempty iso then c.read iso else none

  print_or_dash : (ℤ → String) → Option ℤ → String
  print_or_dash print none = dash
  print_or_dash print (some d) = print d

  unfoldable pub format_date : Option String → String
  unfolding parse print_or_dash
  format_date iso = print_or_dash c.date (parse iso)

  unfoldable pub format_date_time : Option String → String
  unfolding parse print_or_dash
  format_date_time iso = print_or_dash c.date_time (parse iso)

  abbrev smart : ℤ → ℤ → String
  smart now d = if str_eq (c.day d) (c.day now) then c.time d else c.date d

  unfoldable pub smart_date_time : ℤ → Option String → String
  unfolding parse print_or_dash
  smart_date_time now iso = print_or_dash (smart now) (parse iso)

-- `Math.round(x / k)`, which rounds a half up, for a whole number of milliseconds and k = 1000.
unfoldable pub seconds : ℤ → ℤ
seconds (pos d) = pos ((2 * d + 1000) / 2000)
seconds (negsuc n) = sub_ℕ 0 ((2 * (n + 1) + 999) / 2000)

-- `Math.round(n / k)` for a natural number.
round_div : ℕ → ℕ → ℕ
round_div n k = (2 * n + k) / (2 * k)

-- What `relativeTime` says of a time that has passed.
pub data Relative : Type 0 where
  just_now : Relative
  minutes hours days : ℕ → Relative
  on_date : Relative

days_ago : ℕ → Relative
days_ago d = if ltb d 30 then days d else on_date

hours_ago : ℕ → Relative
unfolding days_ago round_div
hours_ago h = if ltb h 24 then hours h else days_ago (round_div h 24)

minutes_ago : ℕ → Relative
unfolding hours_ago round_div
minutes_ago m = if ltb m 60 then minutes m else hours_ago (round_div m 60)

seconds_ago : ℤ → Relative
unfolding minutes_ago round_div
seconds_ago (pos s) = if ltb s 45 then just_now else minutes_ago (round_div s 60)
seconds_ago (negsuc s) = just_now

unfoldable pub relative : ℤ → Relative
unfolding seconds_ago seconds
relative diff = seconds_ago (seconds diff)

module _ (c : Calendar) where
  print_relative : ℤ → Relative → String
  print_relative d just_now = "just now"
  print_relative d (minutes m) = decimal m +s "m ago"
  print_relative d (hours h) = decimal h +s "h ago"
  print_relative d (days n) = decimal n +s "d ago"
  print_relative d on_date = c.date d

  abbrev relative_to : ℤ → ℤ → String
  relative_to now d = print_relative d (relative (now -ℤ d))

  unfoldable pub relative_time : ℤ → Option String → String
  unfolding parse print_or_dash print_relative
  relative_time now iso = print_or_dash c (relative_to now) (parse c iso)

-- `id.slice(-4)`.
abbrev drop : ℕ → String → String
drop zero s = s
drop (suc n) String.[] = String.[]
drop (suc n) (String.◌∷◌ c s) = drop n s

unfoldable pub take_last : ℕ → String → String
take_last n s = drop (size s - n) s

unfoldable pub short_id : Option String → String
unfolding take_last
short_id none = dash
short_id (some id) = if ltb (size id) 12 then id else take 4 id +s "…" +s take_last 4 id
