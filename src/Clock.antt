-- ===== src/Clock.antt =====
-- The part of Go's time package that the services use. An instant is the number of nanoseconds
-- since the start of 1970 in UTC, and a date is the number of days since then.
use room_booking_platform.Base.{
  ℕ, ◌+◌, ◌-◌, ◌*◌, ◌/◌, ◌%◌, ◌<◌, ◌≡◌, Bool, true, false, ◌&&◌, Option, none, some, [], ◌∷◌, arith,
  ltb, ◌==◌, if◌then◌else◌,
}
use room_booking_platform.Text.{Chars, is_digit}

abbrev pub second : ℕ
second = 1_000_000_000

abbrev pub minute : ℕ
minute = 60_000_000_000

-- time.Duration of thirty minutes
abbrev pub half_hour : ℕ
half_hour = 1_800_000_000_000

abbrev pub day : ℕ
day = 86_400_000_000_000

-- time.Date(t.Year(), t.Month(), t.Day(), 0, 0, 0, 0, time.UTC)
abbrev pub midnight : ℕ → ℕ
midnight t = (t / day) * day

-- t.AddDate(0, 0, n)
abbrev pub add_days : ℕ → ℕ → ℕ
add_days n t = t + n * day

-- t.Weekday(), with Sunday as 0; the first day of 1970 was a Thursday.
abbrev pub weekday : ℕ → ℕ
weekday t = (t / day + 4) % 7

-- getnum: one or two digits, two if `fixed`.
abbrev getnum : Bool → Chars → Option (ℕ × Chars)
getnum fixed [] = none
getnum fixed (a ∷ []) =
    if is_digit a && (if fixed then false else true) then some (a - b'0', []) else none
getnum fixed (a ∷ b ∷ s) =
    if is_digit a
    then (if is_digit b
        then some (10 * (a - b'0') + (b - b'0'), s)
        else if fixed
        then none
        else some (a - b'0', b ∷ s))
    else none

abbrev minutes_part : ℕ → Option (ℕ × Chars) → Option ℕ
minutes_part h none = none
minutes_part h (some (m, [])) = if ltb m 60 then some (60 * h + m) else none
minutes_part h (some (m, _ ∷ _)) = none

abbrev after_hour : Option (ℕ × Chars) → Option ℕ
after_hour none = none
after_hour (some (h, [])) = none
after_hour (some (h, c ∷ s)) =
    if ltb h 24 && c == b':' then minutes_part h (getnum true s) else none

-- time.Parse("15:04", s), as the minute of the day
unfoldable pub parse_clock : Chars → Option ℕ
parse_clock s = after_hour (getnum false s)

-- The text HH:MM of a minute of the day.
abbrev pub hhmm : ℕ → Chars
hhmm m =
    (b'0' + m / 600) ∷ (b'0' + m / 60 % 10) ∷ b':' ∷ (b'0' + m % 60 / 10) ∷ (b'0' + m % 10) ∷ []

-- Every minute of the day is read back from its text.
pub parse_clock-hhmm : (m : ℕ) → m < 1440 → parse_clock (hhmm m) ≡ some m
unfolding parse_clock
parse_clock-hhmm m h = ground arith
