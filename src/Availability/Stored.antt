-- ===== src/Availability/Stored.antt =====
-- The times of a schedule on their way through the TIME columns: what GenerateSlots parses is what was
-- stored.
use room_booking_platform.Base.{ℕ, ◌*◌, ◌<◌, ◌≡◌, ap, ◌∙◌, some, take}
use room_booking_platform.Clock.{parse_clock, parse_clock-hhmm}
use room_booking_platform.Availability.Tables.{ScheduleRow, TimeColumn, IsTimeColumn}
use room_booking_platform.Availability.Schedules.{scan_schedule}

module _ (t : TimeColumn) (law : IsTimeColumn t) where
  reads :
      (seconds m : ℕ)
      → seconds ≡ 60 * m
      → m < 1440
      → parse_clock (take 5 (t.time_out seconds)) ≡ some m
  reads seconds m e h =
      ap (λ x. parse_clock (take 5 (t.time_out x))) e
      ∙ ap parse_clock (law.writes m h)
      ∙ parse_clock-hhmm m h

  -- If the database writes a time on the minute as HH:MM, a schedule that is stored with two such
  -- times is read back with texts that GenerateSlots parses as these minutes of the day.
  pub scan_schedule_times :
      (r : ScheduleRow) (a b : ℕ)
      → r.start_time ≡ 60 * a
      → r.end_time ≡ 60 * b
      → a < 1440
      → b < 1440
      → (parse_clock (scan_schedule t r).start_time ≡ some a)
        × (parse_clock (scan_schedule t r).end_time ≡ some b)
  unfolding scan_schedule
  scan_schedule_times r a b ea eb ha hb = (reads r.start_time a ea ha, reads r.end_time b eb hb)
