-- ===== src/Booking/Tables.antt =====
-- The tables of booking_db (migrations/001_init.up.sql and 002) and the row types of
-- internal/repository/repository.go.
use room_booking_platform.Base.{ℕ, String, Option, List, Bool, ◌==◌}

pub data Status : Type 0 where
  active cancelled : Status

pub data Conference : Type 0 where
  not_requested pending ready failed : Conference

pub record Booking : Type 0 where
  pub id : ℕ
  pub slot : ℕ
  pub user : ℕ
  pub room : ℕ
  pub status : Status
  pub link : Option String
  pub requested : Bool
  pub conference : Conference
  pub slot_start : ℕ
  pub slot_end : ℕ
  pub cancelled_at : Option ℕ
  pub created_at : ℕ
  pub updated_at : ℕ

pub data JobStatus : Type 0 where
  pending processing done failed : JobStatus

-- A row of conference_jobs.
pub record Job : Type 0 where
  pub booking : ℕ
  pub status : JobStatus
  pub attempts : ℕ
  pub next_retry : Option ℕ
  pub last_error : Option String
  pub locked_at : Option ℕ
  pub created_at : ℕ

pub record Db : Type 0 where
  pub bookings : List Booking
  pub jobs : List Job

pub data Error : Type 0 where
  booking_not_found commit_unknown database : Error

abbrev pub has_id : ℕ → Booking → Bool
has_id i b = b.id == i

abbrev pub is_for : ℕ → Job → Bool
is_for i j = j.booking == i
