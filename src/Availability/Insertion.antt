-- ===== src/Availability/Insertion.antt =====
-- What a run of GenerateSlots leaves in the table: the rows that were there, and the wanted slots.
use room_booking_platform.Base.{
  ℕ, zero, suc, ◌+◌, ◌*◌, ◌%◌, ◌≤◌, ◌<◌, ◌≡◌, refl, sym, inl, inr, Bool, true, false, ◌||◌, none,
  some, List, [], ◌∷◌, ◌++◌, arith, done, if◌then◌else◌, All, exists, find-append, Option-cases,
  Bool-cases, All-append, ok,
}
use mathlib.Core.Path.{subst}
use room_booking_platform.Clock.{minute, half_hour, day, midnight, add_days, parse_clock}
use room_booking_platform.Availability.Tables.{Slot, Schedule, Db, has_id, at_start}
use room_booking_platform.Availability.Generation.{
  Env, Progress, add_slot, insert_row, new_slot, put_slot, on_day, generate_slots, start_progress,
  refers, overlaps,
}
use room_booking_platform.Availability.Rounds.{generate_slots_inv}
use room_booking_platform.Availability.Invariant.{IsSlot, IsValid, insert_row-IsValid}
use room_booking_platform.Availability.Reservation.{row}
use room_booking_platform.Availability.Coverage.{
  half_hours, wanted, put_all, put_all-nil, put_all-cons, put_all_stops, generate_slots-eq-put_all,
}

exists-append :
    (q : Slot → Bool) (xs ys : List Slot) → exists q xs ≡ true → exists q (xs ++ ys) ≡ true
exists-append q [] ys h = cc
exists-append q (x ∷ xs) ys h = ground (arith, exists-append q xs ys)

exists-snoc :
    (q : Slot → Bool) (xs : List Slot) (y : Slot) → exists q (xs ++ y ∷ []) ≡ (exists q xs || q y)
exists-snoc q [] y = ground arith
exists-snoc q (x ∷ xs) y = ground (arith, exists-snoc q xs y)

module _ (env : Env) (schedule : Schedule) where
  row-put_slot :
      (j : ℕ) (s : Slot) (t : ℕ) (p : Progress)
      → row j p.db ≡ some s
      → row j (put_slot env schedule t p).db ≡ some s
  unfolding put_slot insert_row
  row-put_slot j s t p h =
      ground (arith, find-append (has_id j) p.db.slots (new_slot env schedule t ∷ []) s h)

  -- A run leaves every slot that was there as it was, booked or free, and however the run ends.
  pub row-generate_slots :
      (from until j : ℕ) (s : Slot) (db : Db)
      → row j db ≡ some s
      → row j (generate_slots env schedule from until db).db ≡ some s
  row-generate_slots from until j s db h =
      generate_slots_inv env schedule (λ d. row j d ≡ some s) (row-put_slot j s) from until db h

  abbrev pub has_start : ℕ → Db → Bool
  has_start t db = exists (at_start schedule.room t) db.slots

  put_slot_keeps :
      (u t : ℕ) (p : Progress)
      → has_start u p.db ≡ true
      → has_start u (put_slot env schedule t p).db ≡ true
  unfolding put_slot insert_row
  put_slot_keeps u t p h =
      ground (
        arith,
        exists-append (at_start schedule.room u) p.db.slots (new_slot env schedule t ∷ []) h,
      )

  put_slot_adds :
      (t : ℕ) (p : Progress)
      → (put_slot env schedule t p).failure ≡ none
      → has_start t (put_slot env schedule t p).db ≡ true
  unfolding put_slot insert_row
  put_slot_adds t p h =
      ground (arith, exists-snoc (at_start schedule.room t) p.db.slots (new_slot env schedule t))

  put_all_keeps :
      (u : ℕ) (ts : List ℕ) (p : Progress)
      → has_start u p.db ≡ true
      → has_start u (put_all env schedule ts p).db ≡ true
  unfolding put_all
  put_all_keeps u [] p h = h
  put_all_keeps u (t ∷ ts) p h =
      let k = put_slot_keeps u t p h in
      ground (arith, k, put_all_keeps u ts (put_slot env schedule t p) k)

  put_all_adds :
      (ts : List ℕ) (p : Progress)
      → (put_all env schedule ts p).failure ≡ none
      → All (λ t. has_start t (put_all env schedule ts p).db ≡ true) ts
  put_all_adds [] p h = tt
  put_all_adds (t ∷ ts) p h = elim (Option-cases (put_slot env schedule t p).failure) [
    | inl n ↦
        let q = put_slot env schedule t p in
        let whole = put_all-cons env schedule t ts p n in
        subst (λ r. All (λ u. has_start u r.db ≡ true) (t ∷ ts)) (sym whole)
          (put_all_keeps t ts q (put_slot_adds t p n), put_all_adds ts q (rw whole at h))
    | inr (x, n) ↦ cc (put_all_stops env schedule t ts p x n)
  ]

  -- On a schedule whose times parse and lie `k` half hours apart, at most 48, and on a range of
  -- `n` dates, a run that ends without an error leaves a slot at each half hour of each wanted
  -- date.
  pub generate_slots-wanted :
      (n k a b from until : ℕ) (db : Db)
      → parse_clock schedule.start_time ≡ some a
      → parse_clock schedule.end_time ≡ some b
      → k ≤ 48
      → b ≡ a + 30 * k
      → until ≤ from + n * day
      → from + n * day < until + day
      → (generate_slots env schedule from until db).failure ≡ none
      → All
          (λ t. has_start t (generate_slots env schedule from until db).db ≡ true)
          (wanted env schedule k a n from)
  generate_slots-wanted n k a b from until db ea eb kh e lo hi h =
      let whole = generate_slots-eq-put_all env schedule n k a b from until db ea eb kh e lo hi in
      rw whole (put_all_adds (wanted env schedule k a n from) (start_progress db) (rw whole at h))

  -- The tables into which nothing stands in the way of an insertion: the schedule is there, its
  -- room's slots last half an hour and lie on the grid of its opening time, and the new ids are new.
  pub record IsOpen (open_at : ℕ) (db : Db) : Type 0 where
    pub listed : exists (refers (new_slot env schedule 0)) db.schedules ≡ true
    pub valid : IsValid db.slots
    pub grid :
        All
          (λ s. s.room ≡ schedule.room → s.start_at % half_hour ≡ open_at * minute % half_hour)
          db.slots
    pub distinct : (t u : ℕ) → env.new_id t ≡ env.new_id u → t ≡ u
    pub unused : (t : ℕ) → has_start t db ≡ false → exists (has_id (env.new_id t)) db.slots ≡ false

  no_overlap :
      (open_at t : ℕ) (slots : List Slot)
      → t % half_hour ≡ open_at * minute % half_hour
      → All IsSlot slots
      → All
          (λ s. s.room ≡ schedule.room → s.start_at % half_hour ≡ open_at * minute % half_hour)
          slots
      → exists (at_start schedule.room t) slots ≡ false
      → exists (overlaps (new_slot env schedule t)) slots ≡ false
  no_overlap open_at t [] g v h e = refl
  no_overlap open_at t (s ∷ slots) g v h e = ground (arith, no_overlap open_at t slots g v.1 h.1)

  -- One round of the loop, where the tables are open and the statement is run.
  insert_known :
      (t : ℕ) (db : Db)
      → has_start t db ≡ true
      → insert_row (new_slot env schedule t) db ≡ (ok 0, db)
  unfolding insert_row
  insert_known t db h = rw h

  insert_new :
      (open_at t : ℕ) (db : Db)
      → t % half_hour ≡ open_at * minute % half_hour
      → IsOpen open_at db
      → has_start t db ≡ false
      → insert_row (new_slot env schedule t) db ≡ (ok 1, add_slot (new_slot env schedule t) db)
  unfolding insert_row
  insert_new open_at t db g o h =
      rw (h, o.unused t h, no_overlap open_at t db.slots g o.valid.each o.grid h, o.listed)

  add_slot-IsOpen :
      (open_at t : ℕ) (db : Db)
      → t % half_hour ≡ open_at * minute % half_hour
      → IsOpen open_at db
      → has_start t db ≡ false
      → IsOpen open_at (add_slot (new_slot env schedule t) db)
  add_slot-IsOpen open_at t db g o h = record {
    listed = o.listed;
    valid =
        subst (λ r. IsValid r.1.slots) (insert_new open_at t db g o h)
          (insert_row-IsValid (new_slot env schedule t) db (record { lasts = refl; agrees = tt })
            o.valid);
    grid = All-append _ db.slots (new_slot env schedule t ∷ []) o.grid ((λ _. g), tt);
    distinct = o.distinct;
    unused = λ u e.
        let ids = exists-snoc (has_id (env.new_id u)) db.slots (new_slot env schedule t) in
        let starts = exists-snoc (at_start schedule.room u) db.slots (new_slot env schedule t) in
        ground (arith, ids, starts, o.unused u, o.distinct t u);
  }

  put_slot-IsOpen :
      (open_at t : ℕ) (p : Progress)
      → t % half_hour ≡ open_at * minute % half_hour
      → env.insert t ≡ done
      → IsOpen open_at p.db
      → ((put_slot env schedule t p).failure ≡ none) × IsOpen open_at (put_slot env schedule t p).db
  unfolding put_slot
  put_slot-IsOpen open_at t p g i o = elim (Bool-cases (has_start t p.db)) [
    | inl y ↦ rw (i, insert_known t p.db y) (refl, o)
    | inr n ↦ rw (i, insert_new open_at t p.db g o n) (refl, add_slot-IsOpen open_at t p.db g o n)
  ]

  put_all_succeeds :
      (open_at : ℕ) (ts : List ℕ) (p : Progress)
      → All (λ t. t % half_hour ≡ open_at * minute % half_hour) ts
      → ((t : ℕ) → env.insert t ≡ done)
      → IsOpen open_at p.db
      → p.failure ≡ none
      → (put_all env schedule ts p).failure ≡ none
  put_all_succeeds open_at [] p g i o f = rw (put_all-nil env schedule p) f
  put_all_succeeds open_at (t ∷ ts) p g i o f =
      let (n, o') = put_slot-IsOpen open_at t p g.0 (i t) o in
      rw (put_all-cons env schedule t ts p n)
        (put_all_succeeds open_at ts (put_slot env schedule t p) g.1 i o' n)

  half_hours_grid :
      (open_at k start : ℕ)
      → start % half_hour ≡ open_at * minute % half_hour
      → All (λ t. t % half_hour ≡ open_at * minute % half_hour) (half_hours k start)
  half_hours_grid open_at zero start h = tt
  half_hours_grid open_at (suc k) start h =
      (h, half_hours_grid open_at k (start + half_hour) (omega arith))

  day_grid :
      (k open_at date : ℕ) (b : Bool)
      → All
          (λ t. t % half_hour ≡ open_at * minute % half_hour)
          (if b then half_hours k (midnight date + open_at * minute) else [])
  day_grid k open_at date true =
      half_hours_grid open_at k (midnight date + open_at * minute) (omega arith)
  day_grid k open_at date false = tt

  wanted_grid :
      (k open_at n date : ℕ)
      → All
          (λ t. t % half_hour ≡ open_at * minute % half_hour)
          (wanted env schedule k open_at n date)
  wanted_grid k open_at zero date = tt
  wanted_grid k open_at (suc n) date =
      All-append _ _ (wanted env schedule k open_at n (add_days 1 date))
        (day_grid k open_at date (on_day env schedule date))
        (wanted_grid k open_at n (add_days 1 date))

  -- On a schedule whose times parse and lie `k` half hours apart, at most 48, and on a range of
  -- `n` dates: where the schedule and the slots of its room are in order, the ids are new and the
  -- statements are run, no constraint of the table refuses an insertion, and the run ends without
  -- an error.
  pub generate_slots_succeeds :
      (n k a b from until : ℕ) (db : Db)
      → parse_clock schedule.start_time ≡ some a
      → parse_clock schedule.end_time ≡ some b
      → k ≤ 48
      → b ≡ a + 30 * k
      → until ≤ from + n * day
      → from + n * day < until + day
      → ((t : ℕ) → env.insert t ≡ done)
      → IsOpen a db
      → (generate_slots env schedule from until db).failure ≡ none
  generate_slots_succeeds n k a b from until db ea eb kh e lo hi i o =
      rw (generate_slots-eq-put_all env schedule n k a b from until db ea eb kh e lo hi) (
        put_all_succeeds a (wanted env schedule k a n from) (start_progress db)
          (wanted_grid k a n from) i o refl)
