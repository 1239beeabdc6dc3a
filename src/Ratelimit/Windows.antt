-- ===== src/Ratelimit/Windows.antt =====
-- The windows of credit rules, internal/ratelimit/composite.go: `WindowStartTimeAt`,
-- `WindowResetDurationAt` and `ParseDurationStr`. Instants are nanoseconds since 1970 in UTC.
-- `time.ParseDuration`, and the first instants of a time's month and of the month after it, come
-- from Go's `time` package as a record. Weeks are computed from the day number, as `time.Weekday`,
-- `AddDate` and `time.Date` do for whole days in UTC.
use Prim.Native.String.{len, slice, ◌++◌}
use modelserver.Prelude.{
  ℕ, zero, suc, ◌-◌, ◌*◌, ◌/◌, ◌%◌, ◌^◌, String, ◌&&◌, Option, none, some, str_eq, ltb,
  if◌then◌else◌,
}
use modelserver.Prelude.Int.{ℤ, pos, negsuc, neg, ◌+ℤ◌, ◌-ℤ◌, ltb_ℤ, in_int64, wrap_int64}

pub record TimeLib : Type 0 where
  pub parse_duration : String → Option ℤ
  pub month_start : ℤ → ℤ
  pub next_month_start : ℤ → ℤ

abbrev pub day_ns : ℕ
day_ns = 86_400_000_000_000

abbrev pub hour : ℤ
hour = pos 3_600_000_000_000

-- Division and remainder rounding down, by a positive number.
abbrev pub floor_div : ℤ → ℕ → ℤ
floor_div (pos n) d = pos (n / d)
floor_div (negsuc n) d = negsuc (n / d)

abbrev pub floor_mod : ℤ → ℕ → ℕ
floor_mod (pos n) d = n % d
floor_mod (negsuc n) d = d - 1 - n % d

abbrev pub scale : ℤ → ℕ → ℤ
scale (pos n) k = pos (n * k)
scale (negsuc n) k = neg (pos (suc n * k))

-- The day number of an instant, and the day's number in its week from Monday, 1, to Sunday, 7: the
-- `weekday` of the code after its correction of 0.
unfoldable pub day_number : ℤ → ℤ
day_number now = floor_div now day_ns

abbrev pub sunday_last : ℕ → ℕ
sunday_last zero = 7
sunday_last (suc n) = suc n

unfoldable pub weekday : ℤ → ℕ
weekday now = sunday_last (floor_mod (floor_div now day_ns +ℤ pos 4) 7)

unfoldable pub week_start : ℤ → ℤ
week_start now = scale (day_number now -ℤ pos (weekday now - 1)) day_ns

unfoldable pub next_monday : ℤ → ℤ
next_monday now = scale (day_number now +ℤ pos (8 - weekday now)) day_ns

-- `time.Duration` multiplication by a small constant wraps.
abbrev times : ℤ → ℕ → ℤ
times d k = wrap_int64 (scale d k)

-- The suffix cases of `ParseDurationStr`.
abbrev with_hours : TimeLib → String → ℕ → ℤ
with_hours lib num hours = elim (lib.parse_duration (num ++ "h")) [
  | none ↦ hour
  | some d ↦ times d hours
]

abbrev parse_suffix : TimeLib → String → ℤ
parse_suffix lib s =
    if ltb 1 (len s)
    then (let num = slice s 0 (len s - 1) in
        let suffix = slice s (len s - 1) (len s) in
        if str_eq suffix "d"
        then with_hours lib num 24
        else if str_eq suffix "w"
        then with_hours lib num (24 * 7)
        else hour)
    else hour

-- `ParseDurationStr`
unfoldable pub parse_duration_str : TimeLib → String → ℤ
parse_duration_str lib s = elim (lib.parse_duration s) [ some d ↦ d | none ↦ parse_suffix lib s ]

-- `now.Sub(t)` saturates at the ends of a `time.Duration`.
unfoldable pub saturate : ℤ → ℤ
saturate a =
    if in_int64 a then a else if ltb_ℤ a (pos 0) then negsuc (2 ^ 63 - 1) else pos (2 ^ 63 - 1)

-- `elapsed / d` for an elapsed time that is not negative, rounding towards 0, times `d`. `none` is
-- the panic of a division by 0.
unfoldable pub whole_windows : ℕ → ℤ → Option ℤ
whole_windows elapsed (pos zero) = none
whole_windows elapsed (pos (suc d)) = some (pos (elapsed / suc d * suc d))
whole_windows elapsed (negsuc d) = some (pos (elapsed / suc d * suc d))

abbrev pub add_to : ℤ → Option ℤ → Option ℤ
add_to a none = none
add_to a (some b) = some (a +ℤ b)

abbrev pub from_anchor : ℤ → ℤ → ℤ → Option ℤ
from_anchor anchor d (negsuc elapsed) = some anchor
from_anchor anchor d (pos elapsed) = add_to anchor (whole_windows elapsed d)

-- The start of a fixed window.
unfoldable pub fixed_start : ℤ → ℤ → Option ℤ → Option ℤ
fixed_start now d none = some (now -ℤ d)
fixed_start now d (some anchor) = from_anchor anchor d (saturate (now -ℤ anchor))

abbrev pub rest_start : TimeLib → ℤ → String → String → Option ℤ → Option ℤ
rest_start lib now window window_type anchor =
    if str_eq window_type "fixed"
    then fixed_start now (parse_duration_str lib window) anchor
    else some (now -ℤ parse_duration_str lib window)

-- `WindowStartTimeAt`
unfoldable pub window_start_time_at : TimeLib → ℤ → String → String → Option ℤ → Option ℤ
window_start_time_at lib now window window_type anchor =
    if str_eq window_type "calendar" && str_eq window "1w"
    then some (week_start now)
    else if str_eq window_type "calendar" && str_eq window "1M"
    then some (lib.month_start now)
    else rest_start lib now window window_type anchor

abbrev pub until : ℤ → ℤ → Option ℤ → Option ℤ
until now d none = none
until now d (some start) = some (saturate (start +ℤ d -ℤ now))

abbrev pub rest_reset : TimeLib → ℤ → String → String → Option ℤ → Option ℤ
rest_reset lib now window window_type anchor =
    if str_eq window_type "fixed"
    then until now (parse_duration_str lib window)
        (window_start_time_at lib now window window_type anchor)
    else some (parse_duration_str lib window)

-- `WindowResetDurationAt`
unfoldable pub window_reset_duration_at : TimeLib → ℤ → String → String → Option ℤ → Option ℤ
window_reset_duration_at lib now window window_type anchor =
    if str_eq window_type "calendar" && str_eq window "1w"
    then some (next_monday now -ℤ now)
    else if str_eq window_type "calendar" && str_eq window "1M"
    then some (lib.next_month_start now -ℤ now)
    else rest_reset lib now window window_type anchor
