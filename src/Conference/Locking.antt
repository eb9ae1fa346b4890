-- ===== src/Conference/Locking.antt =====
-- The lock of the store: who may be in, and that somebody can always go on.
use room_booking_platform.Base.{
  ℕ, ◌+◌, ◌<◌, ◌≤◌, ◌≡◌, refl, ◌≢◌, ◌⊎◌, inl, inr, String, Bool, true, false, lookup, put, sum_of,
  sum_of-put, sum_of-le, sum_of_zero, sum_of_positive, weight-le, weights-le, arith, ◌==◌,
  Bool-cases, Option-cases,
}
use room_booking_platform.Conference.Threads.{
  Shared, Place, called, reading, hit, missed, waiting, pending, checking, creating, leaving,
  returned, Move, System, Step, run, Reach, begin, next,
}

-- 1 where a goroutine has the lock for reading, and where it has it for writing.
abbrev pub reads : Place → ℕ
reads (reading _) = 1
reads (hit _ _) = 1
reads (missed _) = 1
reads _ = 0

abbrev pub writes : Place → ℕ
writes (checking _) = 1
writes (creating _) = 1
writes (leaving _ _) = 1
writes _ = 0

-- 1 from the announcement of a writer to its Unlock.
abbrev claims : Place → ℕ
claims (pending _) = 1
claims p = writes p

-- Where a goroutine accesses the map: every place behind a lock, and those that write it.
abbrev pub in_map : Place → Bool
in_map (reading _) = true
in_map (checking _) = true
in_map (creating _) = true
in_map _ = false

abbrev pub is_returned : Place → Bool
is_returned (returned _ _) = true
is_returned _ = false

abbrev as_count : Bool → ℕ
as_count true = 1
as_count false = 0

writes-le : (p : Place) → writes p ≤ claims p
writes-le (pending _) = omega arith
writes-le p = omega arith

writes-le-claims : (n : ℕ) (place : ℕ → Place) → sum_of writes n place ≤ sum_of claims n place
writes-le-claims n place = sum_of-le writes claims writes-le n place

-- The lock counts those that have it, one writer at a time is announced, and a writer that is in has
-- the lock alone.
pub record IsLocked (n : ℕ) (m : Shared) (place : ℕ → Place) : Type 0 where
  pub readers : m.readers ≡ sum_of reads n place
  pub writers : as_count m.announced ≡ sum_of claims n place
  pub alone : 0 < sum_of writes n place → m.readers ≡ 0

-- A goroutine that goes from `p` to `p'`, in terms of the sums.
record Moves (n : ℕ) (place : ℕ → Place) (i : ℕ) (p p' : Place) : Type 0 where
  readers : sum_of reads n (put place i p') + reads p ≡ sum_of reads n place + reads p'
  writers : sum_of claims n (put place i p') + claims p ≡ sum_of claims n place + claims p'
  inside : sum_of writes n (put place i p') + writes p ≡ sum_of writes n place + writes p'
  counted : (reads p ≤ sum_of reads n place) × (claims p ≤ sum_of claims n place)
  among : sum_of writes n (put place i p') ≤ sum_of claims n (put place i p')

moves :
    (n : ℕ) (place : ℕ → Place) (i : ℕ) (p p' : Place) → i < n → p ≡ place i → Moves n place i p p'
moves n place i p p' lt e = record {
  readers = rw e (sum_of-put reads n i place p' lt);
  writers = rw e (sum_of-put claims n i place p' lt);
  inside = rw e (sum_of-put writes n i place p' lt);
  counted = rw e (weight-le reads n i place lt, weight-le claims n i place lt);
  among = writes-le-claims n (put place i p');
}

module _ (short : ℕ → String) where
  -- What a step waits for.
  abbrev Guard : {m m' : Shared} {p p' : Place} → Move short m p m' p' → Type 0
  Guard {m} (Move.r_lock _) = m.announced ≡ false
  Guard {m} (Move.announce _) = m.announced ≡ false
  Guard {m} (Move.lock _) = m.readers ≡ 0
  Guard _ = Unit

  guard : {m m' : Shared} {p p' : Place} (mv : Move short m p m' p') → Guard mv
  guard (Move.r_lock g) = g
  guard (Move.announce g) = g
  guard (Move.lock g) = g
  guard _ = tt

  -- The lock after a step, where the place of goroutine `i` has changed.
  Move-IsLocked :
      {n i : ℕ} {m m' : Shared} {p p' : Place} (place : ℕ → Place)
      → Move short m p m' p'
      → Moves n place i p p'
      → IsLocked n m place
      → IsLocked n m' (put place i p')
  Move-IsLocked place (Move.r_lock g) v inv = record {
    readers = ground (arith, g, v.readers, v.counted, inv.readers);
    writers = ground (arith, g, v.writers, v.counted, inv.writers);
    alone = ground (arith, g, v.writers, v.among, inv.writers);
  }
  Move-IsLocked place mv v inv = record {
    readers = ground (arith, guard mv, v.readers, v.counted, inv.readers, inv.alone);
    writers = ground (arith, guard mv, v.writers, v.counted, inv.writers);
    alone = ground (arith, guard mv, inv.alone, v.inside, inv.readers, inv.writers, v.counted);
  }

  -- Every step keeps the count of the lock.
  Step-IsLocked :
      {n : ℕ} {s t : System short}
      → Step short n s t
      → IsLocked n s.shared s.place
      → IsLocked n t.shared t.place
  Step-IsLocked {n} {s} (run i {p = p'} lt mv) inv =
      Move-IsLocked s.place mv (moves n s.place i (s.place i) p' lt refl) inv

  pub Reach-IsLocked :
      {n : ℕ} {ids : ℕ → ℕ} {s : System short} → Reach short n ids s → IsLocked n s.shared s.place
  Reach-IsLocked {n} {ids} begin = record {
    readers = rw (sum_of_zero reads n (λ i. called (ids i)) (λ i. refl)) refl;
    writers = rw (sum_of_zero claims n (λ i. called (ids i)) (λ i. refl)) refl;
    alone = λ e. refl;
  }
  Reach-IsLocked (next r st) = Step-IsLocked st (Reach-IsLocked r)

  -- However the goroutines of GetOrCreate interleave, in every reachable state: if one is between
  -- Lock and Unlock, where it may write the map, and one is where it next reads or writes the map,
  -- behind RLock or Lock, they are the same goroutine.
  pub no_data_race :
      {n : ℕ} {ids : ℕ → ℕ} {s : System short}
      → Reach short n ids s
      → (i j : ℕ) → i < n
      → j < n
      → writes (s.place i) ≡ 1
      → in_map (s.place j) ≡ true
      → i ≡ j
  no_data_race {n} {s = s} r i j li lj w a = elim (Bool-cases (i == j)) [
    | inl same ↦ ground arith
    | inr apart ↦
        let inv = Reach-IsLocked r in
        absurd (
          ground (
            arith,
            inv.readers,
            inv.writers,
            inv.alone,
            weight-le writes n i s.place li,
            weight-le reads n j s.place lj,
            weights-le writes n i j s.place li lj,
            writes-le-claims n s.place,
          ))
  ]

  -- A step that is open to a goroutine.
  abbrev CanMove : Shared → Place → Type 0
  CanMove m p = (m' : Shared) × (p' : Place) × Move short m p m' p'

  inside_CanMove : (m : Shared) (p : Place) → 0 < reads p + writes p → CanMove m p
  inside_CanMove m (called id) h = absurd (omega arith)
  inside_CanMove m (reading id) h = elim (Option-cases (lookup id m.links)) [
    | inl e ↦ (_, _, Move.not_found e)
    | inr (link, e) ↦ (_, _, Move.found e)
  ]
  inside_CanMove m (hit id link) h = (_, _, Move.r_unlock_hit)
  inside_CanMove m (missed id) h = (_, _, Move.r_unlock_miss)
  inside_CanMove m (waiting id) h = absurd (omega arith)
  inside_CanMove m (pending id) h = absurd (omega arith)
  inside_CanMove m (checking id) h = elim (Option-cases (lookup id m.links)) [
    | inl e ↦ (_, _, Move.still_not_found e)
    | inr (link, e) ↦ (_, _, Move.found_now e)
  ]
  inside_CanMove m (creating id) h = (_, _, Move.store)
  inside_CanMove m (leaving id link) h = (_, _, Move.unlock)
  inside_CanMove m (returned id link) h = absurd (omega arith)

  abbrev Somebody : ℕ → System short → Type 0
  Somebody n s = (j : ℕ) × (j < n) × CanMove s.shared (s.place j)

  -- If a reader is in, one of them can move.
  readers_move :
      {n : ℕ} (s : System short) → IsLocked n s.shared s.place → s.shared.readers ≢ 0 → Somebody n s
  readers_move {n} s inv r =
      let (j, lt, has) = sum_of_positive reads n s.place (ground (arith, inv.readers)) in
      (j, lt, inside_CanMove s.shared (s.place j) (omega arith))

  pending_CanMove : (m : Shared) (id : ℕ) → CanMove m (pending id) ⊎ (m.readers ≢ 0)
  pending_CanMove m id = elim (Bool-cases (m.readers == 0)) [
    | inl z ↦ inl (_, _, Move.lock (ground arith))
    | inr r ↦ inr (λ e. ground arith)
  ]

  -- A writer that is announced can move, or readers are in.
  claim_CanMove : (m : Shared) (p : Place) → 0 < claims p → CanMove m p ⊎ (m.readers ≢ 0)
  claim_CanMove m (pending id) h = pending_CanMove m id
  claim_CanMove m p h = inl (inside_CanMove m p (omega (arith, h)))

  -- If a writer is announced or a reader is in, somebody can move.
  waited_moves :
      {n : ℕ} (s : System short)
      → IsLocked n s.shared s.place
      → (s.shared.announced ≡ true) ⊎ (s.shared.readers ≢ 0)
      → Somebody n s
  waited_moves {n} s inv (inl w) =
      let (j, lt, has) = sum_of_positive claims n s.place (ground (arith, inv.writers)) in
      elim (claim_CanMove s.shared (s.place j) has) [
        | inl mv ↦ (j, lt, mv)
        | inr r ↦ readers_move s inv r
      ]
  waited_moves s inv (inr r) = readers_move s inv r

  -- A goroutine that has not returned can move, or waits for somebody.
  moves_or_waits :
      (m : Shared) (p : Place)
      → is_returned p ≡ false
      → CanMove m p ⊎ ((m.announced ≡ true) ⊎ (m.readers ≢ 0))
  moves_or_waits m (called id) h = elim (Bool-cases m.announced) [
    | inl w ↦ inr (inl w)
    | inr f ↦ inl (_, _, Move.r_lock f)
  ]
  moves_or_waits m (waiting id) h = elim (Bool-cases m.announced) [
    | inl w ↦ inr (inl w)
    | inr f ↦ inl (_, _, Move.announce f)
  ]
  moves_or_waits m (pending id) h = elim (pending_CanMove m id) [
    | inl mv ↦ inl mv
    | inr r ↦ inr (inr r)
  ]
  moves_or_waits m (reading id) h = inl (inside_CanMove m (reading id) (omega arith))
  moves_or_waits m (hit id link) h = inl (inside_CanMove m (hit id link) (omega arith))
  moves_or_waits m (missed id) h = inl (inside_CanMove m (missed id) (omega arith))
  moves_or_waits m (checking id) h = inl (inside_CanMove m (checking id) (omega arith))
  moves_or_waits m (creating id) h = inl (inside_CanMove m (creating id) (omega arith))
  moves_or_waits m (leaving id link) h = inl (inside_CanMove m (leaving id link) (omega arith))
  moves_or_waits m (returned id link) h = cc

  step_of : {n : ℕ} (s : System short) → Somebody n s → (t : System short) × Step short n s t
  step_of s (j, lt, (_, _, mv)) = (_, run j lt mv)

  -- In every reachable state of the goroutines of GetOrCreate where one has not returned, some
  -- goroutine can make a step; an RLock is held up by a Lock that only waits, too.
  pub no_deadlock :
      {n : ℕ} {ids : ℕ → ℕ} {s : System short}
      → Reach short n ids s
      → (i : ℕ) → i < n
      → is_returned (s.place i) ≡ false
      → (t : System short) × Step short n s t
  no_deadlock {s = s} r i lt h = step_of s (elim (moves_or_waits s.shared (s.place i) h) [
    | inl mv ↦ (i, lt, mv)
    | inr in_use ↦ waited_moves s (Reach-IsLocked r) in_use
  ])
