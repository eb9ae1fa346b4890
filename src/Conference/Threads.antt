-- ===== src/Conference/Threads.antt =====
-- services/conference-mock-service/internal/store/store.go: GetOrCreate, run by goroutines that
-- interleave at each access of the lock and of the map.
use room_booking_platform.Base.{
  ℕ, ◌-◌, ◌+◌, ◌<◌, ◌≡◌, String, Bool, true, false, none, some, [], lookup, insert, put,
}
use room_booking_platform.Conference.Store.{Links, link_of}

-- Store, with the state of its sync.RWMutex: the number of readers, and whether a writer has
-- announced itself, from the start of its Lock to the end of its Unlock.
pub record Shared : Type 0 where
  pub links : Links
  pub readers : ℕ
  pub announced : Bool

-- Where a goroutine stands, with the booking that it is called for.
pub data Place : Type 0 where
  -- before RLock, and behind it
  called reading : (id : ℕ) → Place
  -- before the RUnlock that follows a hit
  hit : (id : ℕ) (link : String) → Place
  -- before the RUnlock that follows a miss, and before Lock
  missed waiting : (id : ℕ) → Place
  -- in Lock, announced and waiting for the readers that are in
  pending : (id : ℕ) → Place
  -- behind Lock, and behind the second miss
  checking creating : (id : ℕ) → Place
  -- before the deferred Unlock
  leaving : (id : ℕ) (link : String) → Place
  returned : (id : ℕ) (link : String) → Place

module _ (short : ℕ → String) where
  pub data Move (m : Shared) : Place → Shared → Place → Type 0 where
    -- RLock waits for a writer that is in or only announced; Lock waits for the other writers to
    -- announce itself, and then for the readers.
    r_lock :
        {id : ℕ}
        → m.announced ≡ false
        → Move m (called id) (record m { readers = m.readers + 1 }) (reading id)
    found :
        {id : ℕ} {link : String}
        → lookup id m.links ≡ some link
        → Move m (reading id) m (hit id link)
    not_found : {id : ℕ} → lookup id m.links ≡ none → Move m (reading id) m (missed id)
    r_unlock_hit :
        {id : ℕ} {link : String}
        → Move m (hit id link) (record m { readers = m.readers - 1 }) (returned id link)
    r_unlock_miss :
        {id : ℕ} → Move m (missed id) (record m { readers = m.readers - 1 }) (waiting id)
    announce :
        {id : ℕ}
        → m.announced ≡ false
        → Move m (waiting id) (record m { announced = true }) (pending id)
    lock : {id : ℕ} → m.readers ≡ 0 → Move m (pending id) m (checking id)
    found_now :
        {id : ℕ} {link : String}
        → lookup id m.links ≡ some link
        → Move m (checking id) m (leaving id link)
    still_not_found : {id : ℕ} → lookup id m.links ≡ none → Move m (checking id) m (creating id)
    store :
        {id : ℕ}
        → Move m
            (creating id)
            (record m { links = insert id (link_of short id) m.links })
            (leaving id (link_of short id))
    unlock :
        {id : ℕ} {link : String}
        → Move m (leaving id link) (record m { announced = false }) (returned id link)

  -- `n` goroutines over one store.
  pub record System : Type 0 where
    pub shared : Shared
    pub place : ℕ → Place

  pub data Step (n : ℕ) (s : System) : System → Type 0 where
    run :
        (i : ℕ) {m : Shared} {p : Place}
        → i < n
        → Move s.shared (s.place i) m p
        → Step n s (record { shared = m; place = put s.place i p })

  -- New, and calls for the bookings `ids`.
  abbrev pub start : (ℕ → ℕ) → System
  start ids = record {
    shared = record { links = []; readers = 0; announced = false };
    place = λ i. called (ids i);
  }

  pub data Reach (n : ℕ) (ids : ℕ → ℕ) : System → Type 0 where
    begin : Reach n ids (start ids)
    next : {s t : System} → Reach n ids s → Step n s t → Reach n ids t
