-- ===== src/Availability/Acceptance.antt =====
-- What CreateSchedule accepts (the checks of services/availability-service, internal/service).
use room_booking_platform.Base.{
  ℕ, ◌+◌, ◌-◌, ◌*◌, ◌/◌, ◌≤◌, ◌<◌, ◌≡◌, refl, ap, inl, inr, true, Option, none, some, List, [], ◌∷◌,
  ok, All, arith, Option-cases,
}
use mathlib.Core.Path.{subst}
use room_booking_platform.Text.{Chars, ℤ, pos, negsuc, split, trim_space, atoi}
use room_booking_platform.Availability.Service.{
  RoomReply, CreateScheduleRequest, parse_time, check_days, check_range, validate, up_to, join_time,
  time_of_parts, day_value, cons_day,
}

up_to_le : (bound : ℕ) (o : Option ℤ) (n : ℕ) → up_to bound o ≡ some n → n ≤ bound
up_to_le bound none n h = cc
up_to_le bound (some (pos m)) n h = ground arith
up_to_le bound (some (negsuc m)) n h = cc

join_time_lt :
    (h m : Option ℕ) (t : ℕ)
    → ((n : ℕ) → h ≡ some n → n ≤ 23)
    → ((n : ℕ) → m ≡ some n → n ≤ 59)
    → join_time h m ≡ some t
    → t < 1440
join_time_lt none m t a b e = cc
join_time_lt (some h) none t a b e = cc
join_time_lt (some h) (some m) t a b e = ground (arith, a h refl, b m refl)

time_of_parts_lt : (parts : List Chars) (t : ℕ) → time_of_parts parts ≡ some t → t < 1440
time_of_parts_lt [] t e = cc
time_of_parts_lt (h ∷ []) t e = cc
time_of_parts_lt (h ∷ m ∷ []) t e =
    join_time_lt (up_to 23 (atoi h)) (up_to 59 (atoi m)) t (up_to_le 23 (atoi h))
      (up_to_le 59 (atoi m)) e
time_of_parts_lt (h ∷ m ∷ s ∷ rest) t e = cc

-- A time that is accepted is a minute of the day.
parse_time_lt : (s : Chars) (t : ℕ) → parse_time s ≡ some t → t < 1440
unfolding parse_time
parse_time_lt s t e = time_of_parts_lt (split b':' (trim_space s)) t e

-- The days of the request, each from Monday (1) to Sunday (7).
abbrev pub AreDays : List ℕ → Type 0
AreDays days = All (λ d. (1 ≤ d) × (d ≤ 7)) days

day_value_range : (d : ℤ) (n : ℕ) → day_value d ≡ some n → (1 ≤ n) × (n ≤ 7)
day_value_range (pos m) n h = ground arith
day_value_range (negsuc m) n h = cc

cons_day-AreDays :
    (n : ℕ) (rest : Option (List ℕ)) (days : List ℕ)
    → (1 ≤ n) × (n ≤ 7)
    → ((ds : List ℕ) → rest ≡ some ds → AreDays ds)
    → cons_day n rest ≡ some days
    → AreDays days
cons_day-AreDays n none days a r e = cc
cons_day-AreDays n (some ds) days a r e =
    let same : n ∷ ds ≡ days = cc in subst AreDays same (a, r ds refl)

check_days-AreDays : (ds : List ℤ) (days : List ℕ) → check_days ds ≡ some days → AreDays days
unfolding check_days
check_days-AreDays [] days e = let same : [] ≡ days = cc in subst AreDays same tt
check_days-AreDays (d ∷ ds) days e = elim (Option-cases (day_value d)) [
  | inl none_is ↦ absurd (none_ne_some (rw (none_is, check_days) at e))
  | inr (n, some_is) ↦
      cons_day-AreDays n (check_days ds) days (day_value_range d n some_is)
        (λ rest h. check_days-AreDays ds rest h) (rw (some_is, check_days) at e)
]
  where
    none_ne_some : none ≡ some days → ⊥
    none_ne_some h = cc

pub record Accepted (path_room : ℕ) (req : CreateScheduleRequest) (days : List ℕ) : Type 0 where
  pub room : req.room ≡ path_room
  pub days_of_week : AreDays days
  pub open_at : ℕ
  pub half_hours : ℕ
  pub opens : parse_time req.start_time ≡ some open_at
  pub closes : parse_time req.end_time ≡ some (open_at + 30 * half_hours)
  pub some_time : (1 ≤ half_hours) × (half_hours ≤ 48)

whole_halves : (m n : ℕ) → check_range (some m) (some n) ≡ true → n ≡ m + 30 * ((n - m) / 30)
whole_halves m n h = ground arith

some_halves : (m n : ℕ) → check_range (some m) (some n) ≡ true → 1 ≤ (n - m) / 30
some_halves m n h = ground arith

range_halves :
    (a b : Option ℕ)
    → check_range a b ≡ true
    → (m : ℕ) × (k : ℕ) × (a ≡ some m) × (b ≡ some (m + 30 * k)) × (1 ≤ k)
range_halves none b h = cc
range_halves (some m) none h = cc
range_halves (some m) (some n) h =
    (m, (n - m) / 30, refl, ap some (whole_halves m n h), some_halves m n h)

validate_shape :
    (reply : RoomReply) (path_room : ℕ) (req : CreateScheduleRequest) (days : List ℕ)
    → validate reply path_room req ≡ ok days
    → (req.room ≡ path_room)
      × (check_days req.days ≡ some days)
      × (check_range (parse_time req.start_time) (parse_time req.end_time) ≡ true)
unfolding validate
validate_shape reply path_room req days h = ground arith

-- A request that passes the checks is for the room of the path, on days from 1 to 7, and opens the
-- room for a whole number of half hours, at least 1 and at most 48.
pub validate-Accepted :
    (reply : RoomReply) (path_room : ℕ) (req : CreateScheduleRequest) (days : List ℕ)
    → validate reply path_room req ≡ ok days
    → Accepted path_room req days
validate-Accepted reply path_room req days h =
    let (room, checked, range) = validate_shape reply path_room req days h in
    let (a, k, opens, closes, some_time) =
      range_halves (parse_time req.start_time) (parse_time req.end_time) range in
    let late = parse_time_lt req.end_time (a + 30 * k) closes in
    record {
      room = room;
      days_of_week = check_days-AreDays req.days days checked;
      open_at = a;
      half_hours = k;
      opens = opens;
      closes = closes;
      some_time = (some_time, omega arith);
    }
