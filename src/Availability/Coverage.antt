-- ===== src/Availability/Coverage.antt =====
-- GenerateSlots against its description: the half hours of the schedule on each wanted date.
use room_booking_platform.Base.{
  ℕ, zero, suc, ◌+◌, ◌*◌, ◌≤◌, ◌<◌, ◌≡◌, refl, sym, ◌∙◌, inl, inr, Option, none, some, List, [],
  ◌∷◌, ◌++◌, arith, if◌then◌else◌, Bool-cases, lt→ltb,
}
use room_booking_platform.Clock.{minute, half_hour, day, midnight, add_days, parse_clock}
use room_booking_platform.Availability.Tables.{Schedule, Db, Error}
use room_booking_platform.Availability.Generation.{
  Env, Progress, or_stop, put_slot, fill_day, on_day, visit_day, fill_days, generate_slots, rounds,
  start_progress,
}

-- `k` half hours in a row.
abbrev pub half_hours : ℕ → ℕ → List ℕ
half_hours zero start = []
half_hours (suc k) start = start ∷ half_hours k (start + half_hour)

or_stop_same :
    (o : Option Error) (p x y : Progress)
    → (o ≡ none → x ≡ y)
    → ◌≡◌ {A = Progress} (elim o [ some _ ↦ p | none ↦ x ]) (elim o [ some _ ↦ p | none ↦ y ])
or_stop_same none p x y h = h refl
or_stop_same (some e) p x y h = refl

or_stop_cong :
    (p q : Progress) (f g : Progress → Progress)
    → p ≡ q
    → (p.failure ≡ none → f p ≡ g p)
    → or_stop p f ≡ or_stop q g
or_stop_cong p q f g e h = rw (← e) (or_stop_same p.failure p (f p) (g p) h)

module _ (env : Env) (schedule : Schedule) where
  -- The starts of the slots of `n` dates, of which each wanted one has `k` from `open_at` on.
  abbrev pub wanted : ℕ → ℕ → ℕ → ℕ → List ℕ
  wanted k open_at zero date = []
  wanted k open_at (suc n) date =
      (if on_day env schedule date then half_hours k (midnight date + open_at * minute) else [])
      ++ wanted k open_at n (add_days 1 date)

  -- The insertions of a list of slots, which stop at the first error.
  unfoldable pub put_all : List ℕ → Progress → Progress
  put_all [] p = p
  put_all (t ∷ ts) p = or_stop (put_slot env schedule t p) (put_all ts)

  pub put_all-cons :
      (t : ℕ) (ts : List ℕ) (p : Progress)
      → (put_slot env schedule t p).failure ≡ none
      → put_all (t ∷ ts) p ≡ put_all ts (put_slot env schedule t p)
  unfolding put_all
  put_all-cons t ts p h = ground arith

  pub put_all_stops :
      (t : ℕ) (ts : List ℕ) (p : Progress) (e : Error)
      → (put_slot env schedule t p).failure ≡ some e
      → (put_all (t ∷ ts) p).failure ≡ some e
  unfolding put_all
  put_all_stops t ts p e h = ground arith

  fill_day-eq-put_all :
      (fuel k start day_end : ℕ) (p : Progress)
      → k ≤ fuel
      → day_end ≤ start + k * half_hour
      → start + k * half_hour < day_end + half_hour
      → fill_day env schedule fuel start day_end p ≡ put_all (half_hours k start) p
  unfolding fill_day put_all
  fill_day-eq-put_all zero zero start day_end p h lo hi = refl
  fill_day-eq-put_all zero (suc k) start day_end p h lo hi = absurd (omega arith)
  fill_day-eq-put_all (suc fuel) zero start day_end p h lo hi = ground arith
  fill_day-eq-put_all (suc fuel) (suc k) start day_end p h lo hi =
      let q = put_slot env schedule start p in
      let rest =
        fill_day-eq-put_all fuel k (start + half_hour) day_end q (omega arith) (omega arith)
          (omega arith) in
      ground (arith, rest)

  put_all-append :
      (ts us : List ℕ) (p : Progress)
      → p.failure ≡ none
      → put_all (ts ++ us) p ≡ or_stop (put_all ts p) (put_all us)
  unfolding put_all
  put_all-append [] us p h = ground arith
  put_all-append (t ∷ ts) us p h = ground (arith, put_all-append ts us (put_slot env schedule t p))

  visit_day-eq-put_all :
      (k a b date : ℕ) (p : Progress)
      → k ≤ 48
      → b ≡ a + 30 * k
      → visit_day env schedule a b date p
        ≡ put_all
            (if on_day env schedule date then half_hours k (midnight date + a * minute) else [])
            p
  unfolding visit_day put_all
  visit_day-eq-put_all k a b date p h e =
      let whole =
        fill_day-eq-put_all 48 k (midnight date + a * minute) (midnight date + b * minute) p h
          (omega arith) (omega arith) in
      elim (Bool-cases (on_day env schedule date)) [ inl y ↦ rw y whole | inr n ↦ rw n ]

  pub put_all-nil : (p : Progress) → put_all [] p ≡ p
  unfolding put_all
  put_all-nil p = refl

  fill_days_round :
      (fuel a b date until : ℕ) (p : Progress)
      → date < until
      → fill_days env schedule (suc fuel) a b date until p
        ≡ or_stop
            (visit_day env schedule a b date p)
            (fill_days env schedule fuel a b (add_days 1 date) until)
  unfolding fill_days
  fill_days_round fuel a b date until p h = rw (lt→ltb date until h, fill_days)

  fill_days-eq-put_all :
      (fuel n k a b date until : ℕ) (p : Progress)
      → p.failure ≡ none
      → k ≤ 48
      → b ≡ a + 30 * k
      → n ≤ fuel
      → until ≤ date + n * day
      → date + n * day < until + day
      → fill_days env schedule fuel a b date until p ≡ put_all (wanted k a n date) p
  unfolding fill_days
  fill_days-eq-put_all zero zero k a b date until p f kh e h lo hi = sym (put_all-nil p)
  fill_days-eq-put_all zero (suc n) k a b date until p f kh e h lo hi = absurd (omega arith)
  fill_days-eq-put_all (suc fuel) zero k a b date until p f kh e h lo hi =
      ground (arith, put_all-nil p)
  fill_days-eq-put_all (suc fuel) (suc n) k a b date until p f kh e h lo hi =
      fill_days_round fuel a b date until p (omega arith)
      ∙ or_stop_cong (visit_day env schedule a b date p) _
          (fill_days env schedule fuel a b (add_days 1 date) until)
          (put_all (wanted k a n (add_days 1 date))) (visit_day-eq-put_all k a b date p kh e)
          (λ f'.
            fill_days-eq-put_all fuel n k a b (add_days 1 date) until
              (visit_day env schedule a b date p) f' kh e (omega arith) (omega arith) (omega arith))
      ∙ sym (put_all-append _ (wanted k a n (add_days 1 date)) p f)

  -- On a schedule whose times parse and lie `k` half hours apart, at most 48, and on a range of
  -- `n` dates, the loops of GenerateSlots insert the half hours of the wanted dates, one after
  -- another, and the fuel of both loops is enough.
  pub generate_slots-eq-put_all :
      (n k a b from until : ℕ) (db : Db)
      → parse_clock schedule.start_time ≡ some a
      → parse_clock schedule.end_time ≡ some b
      → k ≤ 48
      → b ≡ a + 30 * k
      → until ≤ from + n * day
      → from + n * day < until + day
      → generate_slots env schedule from until db ≡ put_all (wanted k a n from) (start_progress db)
  unfolding generate_slots
  generate_slots-eq-put_all n k a b from until db ea eb kh e lo hi =
      rw (ea, eb, generate_slots)
        (fill_days-eq-put_all (rounds from until) n k a b from until (start_progress db) refl kh e
          (omega arith) lo hi)
