-- ===== src/Availability/Tables.antt =====
-- The tables of availability_db (migrations/001_init.up.sql) and the row types of
-- internal/repository/repository.go. A UUID is a number, and 0 is the nil UUID.
use room_booking_platform.Base.{ℕ, ◌*◌, ◌≡◌, Option, List, Bool, ◌&&◌, ◌==◌, ◌<◌, take}
use room_booking_platform.Text.{Chars}
use room_booking_platform.Clock.{hhmm}

pub data Status : Type 0 where
  free booked : Status

pub record Slot : Type 0 where
  pub id : ℕ
  pub room : ℕ
  pub schedule : ℕ
  pub start_at : ℕ
  pub end_at : ℕ
  pub status : Status
  pub booking : Option ℕ

pub record SlotMeta : Type 0 where
  pub slot : ℕ
  pub room : ℕ
  pub start_at : ℕ
  pub end_at : ℕ
  pub status : Status

-- A row of `schedules`; the TIME columns count the seconds of the day.
pub record ScheduleRow : Type 0 where
  pub id : ℕ
  pub room : ℕ
  pub days : List ℕ
  pub start_time : ℕ
  pub end_time : ℕ

-- What the repository returns: the times are texts.
pub record Schedule : Type 0 where
  pub id : ℕ
  pub room : ℕ
  pub days : List ℕ
  pub start_time : Chars
  pub end_time : Chars

-- `generated` maps a room to its generated_until, a DATE.
pub record Db : Type 0 where
  pub schedules : List ScheduleRow
  pub slots : List Slot
  pub generated : List (ℕ × ℕ)

pub data Error : Type 0 where
  schedule_exists schedule_not_found slot_not_found slot_booked slot_in_past : Error
  bad_time database : Error

-- PostgreSQL's TIME type: how `::time` reads a text, and how `::text` writes a value.
pub record TimeColumn : Type 0 where
  pub time_in : Chars → Option ℕ
  pub time_out : ℕ → Chars

-- What the program relies on: a time on the minute is written with HH:MM in front.
pub record IsTimeColumn (t : TimeColumn) : Type 0 where
  pub writes : (m : ℕ) → m < 1440 → take 5 (t.time_out (60 * m)) ≡ hhmm m

abbrev pub has_id : ℕ → Slot → Bool
has_id i s = s.id == i

abbrev pub at_start : ℕ → ℕ → Slot → Bool
at_start room start s = s.room == room && s.start_at == start
