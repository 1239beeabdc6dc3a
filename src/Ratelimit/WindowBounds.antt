-- ===== src/Ratelimit/WindowBounds.antt =====
-- About the starts and the resets of the windows.
use modelserver.Prelude.{
  ℕ, zero, suc, ◌+◌, ◌-◌, ◌*◌, ◌/◌, ◌%◌, ◌^◌, ◌≤◌, ◌<◌, String, ◌≡◌, refl, ap, Option, some, arith,
}
use modelserver.Prelude.Int.{ℤ, pos, negsuc, pos_part, neg_part, ◌+ℤ◌, ◌-ℤ◌, ◌≤ℤ◌, ◌<ℤ◌, int_laws}
use modelserver.Ratelimit.Windows.{
  TimeLib, day_ns, floor_div, floor_mod, scale, sunday_last, day_number, weekday, week_start,
  next_monday, parse_duration_str, saturate, whole_windows, fixed_start, window_start_time_at,
  window_reset_duration_at,
}

floor_mod-lt-7 : (a : ℤ) → floor_mod a 7 < 7
floor_mod-lt-7 (pos n) = omega arith
floor_mod-lt-7 (negsuc n) = omega arith

sunday_last_bounds : (n : ℕ) → n < 7 → (1 ≤ sunday_last n) × (sunday_last n ≤ 7)
sunday_last_bounds zero h = omega arith
sunday_last_bounds (suc n) h = omega arith

weekday_bounds : (now : ℤ) → (1 ≤ weekday now) × (weekday now ≤ 7)
unfolding weekday
weekday_bounds now = sunday_last_bounds _ (floor_mod-lt-7 (floor_div now day_ns +ℤ pos 4))

scale_parts :
    (a : ℤ)
    → (pos_part (scale a day_ns) ≡ pos_part a * day_ns)
      × (neg_part (scale a day_ns) ≡ neg_part a * day_ns)
unfolding ◌-ℤ◌
scale_parts (pos n) = ground arith
scale_parts (negsuc n) = ground arith

day_number_bounds :
    (now : ℤ)
    → (pos_part (day_number now) * day_ns + neg_part now
        ≤ pos_part now + neg_part (day_number now) * day_ns)
      × (pos_part now + neg_part (day_number now) * day_ns
          < pos_part (day_number now) * day_ns + neg_part now + day_ns)
unfolding day_number
day_number_bounds (pos n) = omega arith
day_number_bounds (negsuc n) = omega arith

week_start-bounds :
    (now : ℤ) → (week_start now ≤ℤ now) × (now <ℤ week_start now +ℤ pos (7 * day_ns))
unfolding week_start
week_start-bounds now = omega (
  int_laws,
  weekday_bounds now,
  scale_parts (day_number now -ℤ pos (weekday now - 1)),
  day_number_bounds now,
)

-- The reset of a calendar week is the end of the week that starts at `week_start`.
next_monday-eq : (now : ℤ) → next_monday now ≡ week_start now +ℤ pos (7 * day_ns)
unfolding week_start next_monday
next_monday-eq now = omega (
  int_laws,
  weekday_bounds now,
  scale_parts (day_number now -ℤ pos (weekday now - 1)),
  scale_parts (day_number now +ℤ pos (8 - weekday now)),
)

floor_div-scale : (a : ℤ) → floor_div (scale a day_ns) day_ns ≡ a
unfolding ◌-ℤ◌
floor_div-scale (pos n) = ap pos (omega arith)
floor_div-scale (negsuc n) = ground arith

floor_mod_parts : (a : ℤ) → floor_mod a 7 ≡ (pos_part a + 6 * neg_part a) % 7
floor_mod_parts (pos n) = omega arith
floor_mod_parts (negsuc n) = omega arith

back_to_monday :
    (d : ℤ) (r : ℕ)
    → floor_mod (d +ℤ pos 4) 7 ≡ r
    → floor_mod (d -ℤ pos (sunday_last r - 1) +ℤ pos 4) 7 ≡ 1
back_to_monday d zero h =
    omega (int_laws, floor_mod_parts (d +ℤ pos 4), floor_mod_parts (d -ℤ pos 6 +ℤ pos 4))
back_to_monday d (suc r) h =
    omega (int_laws, floor_mod_parts (d +ℤ pos 4), floor_mod_parts (d -ℤ pos (suc r - 1) +ℤ pos 4))

weekday-week_start : (now : ℤ) → weekday (week_start now) ≡ 1
unfolding week_start weekday day_number
weekday-week_start now =
    let d = floor_div now day_ns in
    let r = floor_mod (d +ℤ pos 4) 7 in
    rw (floor_div-scale (d -ℤ pos (sunday_last r - 1))) (ap sunday_last (back_to_monday d r refl))

-- A calendar week starts at or before now and ends after now, a week after its start; the reset is
-- the time left to that end.
pub window_calendar_week :
    (lib : TimeLib) (now : ℤ) (anchor : Option ℤ)
    → (window_start_time_at lib now "1w" "calendar" anchor ≡ some (week_start now))
      × (window_reset_duration_at lib now "1w" "calendar" anchor
          ≡ some (week_start now +ℤ pos (7 * day_ns) -ℤ now))
      × (week_start now ≤ℤ now)
      × (now <ℤ week_start now +ℤ pos (7 * day_ns))
      × (weekday (week_start now) ≡ 1)
unfolding window_start_time_at window_reset_duration_at
window_calendar_week lib now anchor =
    let (from, to) = week_start-bounds now in
    (refl, ap (λ end. some (end -ℤ now)) (next_monday-eq now), from, to, weekday-week_start now)

whole_windows_lem :
    (elapsed k : ℕ)
    → (elapsed / suc k * suc k ≤ elapsed) × (elapsed < elapsed / suc k * suc k + suc k)
whole_windows_lem elapsed k = grind arith

saturate_pos : (n : ℕ) → n < 2 ^ 63 → saturate (pos n) ≡ pos n
unfolding saturate
saturate_pos n h = ground arith

-- A fixed window of positive length with an anchor in the past starts a whole number of windows
-- after the anchor, at or before now, and ends after now; the reset is the time left to its end.
window_fixed :
    (lib : TimeLib) (now anchor : ℤ) (window : String) (k elapsed : ℕ)
    → parse_duration_str lib window ≡ pos (suc k)
    → now -ℤ anchor ≡ pos elapsed
    → elapsed + suc k < 2 ^ 63
    → (start : ℤ) × (n : ℕ) × (window_start_time_at lib now window "fixed" (some anchor)
        ≡ some start)
      × (window_reset_duration_at lib now window "fixed" (some anchor)
          ≡ some (start +ℤ pos (suc k) -ℤ now))
      × (start ≡ anchor +ℤ pos (n * suc k))
      × (start ≤ℤ now)
      × (now <ℤ start +ℤ pos (suc k))
unfolding window_start_time_at window_reset_duration_at fixed_start whole_windows
window_fixed lib now anchor window k elapsed length past fits =
    let m = elapsed / suc k * suc k in
    let (low, high) = whole_windows_lem elapsed k in
    let end : anchor +ℤ pos m +ℤ pos (suc k) -ℤ now ≡ pos (m + suc k - elapsed) =
      omega (int_laws, ap pos_part past, ap neg_part past) in
    rw (length, past, saturate_pos elapsed (omega arith))
      (
        anchor +ℤ pos m,
        elapsed / suc k,
        refl,
        rw (end, saturate_pos (m + suc k - elapsed) (omega arith)),
        refl,
        omega (int_laws, ap pos_part past, ap neg_part past),
        omega (int_laws, ap pos_part past, ap neg_part past),
      )
