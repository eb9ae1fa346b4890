-- ===== src/Availability/Rounds.antt =====
-- The invariant rule of GenerateSlots: what each insertion keeps, the run keeps.
use room_booking_platform.Base.{
  ℕ, zero, suc, inl, inr, ◌+◌, ◌*◌, Option, none, some, arith, Option-cases,
}
use room_booking_platform.Clock.{minute, half_hour, midnight, add_days, parse_clock}
use room_booking_platform.Availability.Tables.{Schedule, Db, Error}
use room_booking_platform.Availability.Generation.{
  Env, Progress, or_stop, put_slot, fill_day, visit_day, fill_days, generate_slots, rounds,
  start_progress,
}

module _ (env : Env) (schedule : Schedule) (P : Db → Type 0)
    (keep : (t : ℕ) (p : Progress) → P p.db → P (put_slot env schedule t p).db) where
  ended_inv :
      (o : Option Error) (p q : Progress)
      → P p.db
      → P q.db
      → let r : Progress = elim o [ some _ ↦ p | none ↦ q ] in P r.db
  ended_inv none p q h k = k
  ended_inv (some _) p q h k = h

  or_stop_inv :
      (p : Progress) (next : Progress → Progress) → P p.db → P (next p).db → P (or_stop p next).db
  or_stop_inv p next h k = ended_inv p.failure p (next p) h k

  fill_day_inv :
      (fuel start day_end : ℕ) (p : Progress)
      → P p.db
      → P (fill_day env schedule fuel start day_end p).db
  unfolding fill_day
  fill_day_inv zero start day_end p h = h
  fill_day_inv (suc fuel) start day_end p h =
      let q = put_slot env schedule start p in
      let k = keep start p h in
      ground (
        arith,
        h,
        or_stop_inv q (fill_day env schedule fuel (start + half_hour) day_end) k
            (fill_day_inv fuel (start + half_hour) day_end q k),
      )

  visit_day_inv :
      (open_at close_at date : ℕ) (p : Progress)
      → P p.db
      → P (visit_day env schedule open_at close_at date p).db
  unfolding visit_day
  visit_day_inv open_at close_at date p h = ground (
    arith,
    fill_day_inv 48 (midnight date + open_at * minute) (midnight date + close_at * minute) p h,
  )

  fill_days_inv :
      (fuel open_at close_at date until : ℕ) (p : Progress)
      → P p.db
      → P (fill_days env schedule fuel open_at close_at date until p).db
  unfolding fill_days
  fill_days_inv zero open_at close_at date until p h = h
  fill_days_inv (suc fuel) open_at close_at date until p h =
      let q = visit_day env schedule open_at close_at date p in
      let k = visit_day_inv open_at close_at date p h in
      ground (
        arith,
        h,
        or_stop_inv q (fill_days env schedule fuel open_at close_at (add_days 1 date) until) k
            (fill_days_inv fuel open_at close_at (add_days 1 date) until q k),
      )

  pub generate_slots_inv :
      (from until : ℕ) (db : Db) → P db → P (generate_slots env schedule from until db).db
  unfolding generate_slots
  generate_slots_inv from until db h = elim (Option-cases (parse_clock schedule.start_time)) [
    | inl e ↦ rw (e, generate_slots) h
    | inr (a, e) ↦ elim (Option-cases (parse_clock schedule.end_time)) [
      | inl e' ↦ rw (e, e', generate_slots) h
      | inr (b, e') ↦
          rw (e, e', generate_slots)
            (fill_days_inv (rounds from until) a b from until (start_progress db) h)
    ]
  ]
