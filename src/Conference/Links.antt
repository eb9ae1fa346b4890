-- ===== src/Conference/Links.antt =====
-- What GetOrCreate answers: every call for a booking gets the same link, which stays in the store.
use room_booking_platform.Base.{
  ℕ, ◌≡◌, refl, inl, inr, String, Option, none, some, lookup, lookup-insert, arith, ◌==◌,
  Bool-cases,
}
use room_booking_platform.Conference.Store.{link_of, get_or_create}
use room_booking_platform.Conference.Threads.{
  Shared, Place, called, reading, hit, missed, waiting, pending, checking, creating, leaving,
  returned, Move, System, Step, run, Reach, begin, next,
}

-- The booking that a goroutine is called for, and the link that it has in hand.
abbrev pub booking_of : Place → ℕ
booking_of (called id) = id
booking_of (reading id) = id
booking_of (hit id _) = id
booking_of (missed id) = id
booking_of (waiting id) = id
booking_of (pending id) = id
booking_of (checking id) = id
booking_of (creating id) = id
booking_of (leaving id _) = id
booking_of (returned id _) = id

abbrev pub link_at : Place → Option String
link_at (hit _ link) = some link
link_at (leaving _ link) = some link
link_at (returned _ link) = some link
link_at _ = none

module _ (short : ℕ → String) where
  -- The store has no link but that of the booking, and a goroutine has one that is in the store.
  pub record AreLinks (ids : ℕ → ℕ) (m : Shared) (place : ℕ → Place) : Type 0 where
    pub stored : (id : ℕ) (link : String) → lookup id m.links ≡ some link → link ≡ link_of short id
    pub asked : (i : ℕ) → booking_of (place i) ≡ ids i
    pub in_hand :
        (i : ℕ) (link : String)
        → link_at (place i) ≡ some link
        → lookup (booking_of (place i)) m.links ≡ some link

  abbrev AllLinks : Shared → Type 0
  AllLinks m = (id : ℕ) (link : String) → lookup id m.links ≡ some link → link ≡ link_of short id

  Move-stored : {m m' : Shared} {p p' : Place} → Move short m p m' p' → AllLinks m → AllLinks m'
  Move-stored {m} (Move.store {id = b}) all id link h =
      ground (arith, lookup-insert b id (link_of short b) m.links, all id link)
  Move-stored mv all id link h = all id link h

  -- A step keeps the links that are there.
  Move-keeps :
      {m m' : Shared} {p p' : Place}
      → Move short m p m' p'
      → AllLinks m
      → (id : ℕ) (link : String) → lookup id m.links ≡ some link
      → lookup id m'.links ≡ some link
  Move-keeps {m} (Move.store {id = b}) all id link h =
      ground (arith, lookup-insert b id (link_of short b) m.links, all id link h)
  Move-keeps mv all id link h = h

  Move-asked : {m m' : Shared} {p p' : Place} → Move short m p m' p' → booking_of p' ≡ booking_of p
  Move-asked (Move.r_lock g) = refl
  Move-asked mv = refl

  -- The goroutine that steps has a link that is in the store.
  Move-in_hand :
      {m m' : Shared} {p p' : Place}
      → Move short m p m' p'
      → ((link : String) → link_at p ≡ some link → lookup (booking_of p) m.links ≡ some link)
      → (link : String) → link_at p' ≡ some link
      → lookup (booking_of p') m'.links ≡ some link
  Move-in_hand (Move.found g) had link h = ground (arith, g)
  Move-in_hand (Move.found_now g) had link h = ground (arith, g)
  Move-in_hand {m} (Move.store {id = b}) had link h =
      ground (arith, lookup-insert b b (link_of short b) m.links)
  Move-in_hand mv had link h = ground (arith, had link)

  Step-AreLinks :
      {n : ℕ} {ids : ℕ → ℕ} {s t : System short}
      → Step short n s t
      → AreLinks ids s.shared s.place
      → AreLinks ids t.shared t.place
  Step-AreLinks {s = s} (run i {m = m'} {p = p'} lt mv) inv = record {
    stored = Move-stored mv inv.stored;
    asked = λ j. ground (arith, inv.asked j, Move-asked mv);
    in_hand = λ j link h. elim (Bool-cases (i == j)) [
      | inl same ↦ rw same (Move-in_hand mv (inv.in_hand i) link (rw same at h))
      | inr apart ↦ rw apart (
          Move-keeps mv inv.stored (booking_of (s.place j)) link
            (inv.in_hand j link (rw apart at h)))
    ];
  }

  pub Reach-AreLinks :
      {n : ℕ} {ids : ℕ → ℕ} {s : System short} → Reach short n ids s → AreLinks ids s.shared s.place
  Reach-AreLinks begin = record {
    stored = λ id link h. cc;
    asked = λ i. refl;
    in_hand = λ i link h. cc;
  }
  Reach-AreLinks (next r st) = Step-AreLinks st (Reach-AreLinks r)

  -- In every reachable state of the goroutines of GetOrCreate, any two that have returned for one
  -- booking have the same link, and a further call for that booking, served alone, returns that
  -- link too and leaves the map as it is.
  pub returned_same :
      {n : ℕ} {ids : ℕ → ℕ} {s : System short} {a b : String} {id : ℕ}
      → Reach short n ids s
      → (i j : ℕ) → s.place i ≡ returned id a
      → s.place j ≡ returned id b
      → (a ≡ b) × (get_or_create short id s.shared.links ≡ (a, s.shared.links))
  unfolding get_or_create
  returned_same {s = s} {a} {b} r i j ei ej =
      let inv = Reach-AreLinks r in
      let at_i = inv.in_hand i a (rw ei refl) in
      let at_j = inv.in_hand j b (rw ej refl) in ground (arith, at_i, at_j)
