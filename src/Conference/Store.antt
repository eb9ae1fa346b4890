-- ===== src/Conference/Store.antt =====
-- services/conference-mock-service/internal/store/store.go, run by one goroutine alone. `short` gives
-- the first eight characters of a UUID's text.
use room_booking_platform.Base.{ℕ, String, Option, none, some, List, lookup, insert}
use Prim.Native.String.{◌++◌}

abbrev pub Links : Type 0
Links = List (ℕ × String)

module _ (short : ℕ → String) where
  -- fmt.Sprintf
  abbrev pub link_of : ℕ → String
  link_of id = "https://meet.example.com/" ++ short id

  abbrev kept_or_new : ℕ → Option String → Links → String × Links
  kept_or_new id (some link) links = (link, links)
  kept_or_new id none links = (link_of id, insert id (link_of id) links)

  -- GetOrCreate
  unfoldable pub get_or_create : ℕ → Links → String × Links
  get_or_create id links = kept_or_new id (lookup id links) links
