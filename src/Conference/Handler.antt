-- ===== src/Conference/Handler.antt =====
-- services/conference-mock-service/internal/handler/handler.go
use room_booking_platform.Base.{ℕ, String, Bool, Option, none, some, if◌then◌else◌}
use room_booking_platform.Http.{Response, json, error}
use room_booking_platform.Conference.Store.{Links, get_or_create}

-- CreateConference. The booking id is `none` where the body is no JSON of the form, or the id no
-- UUID; `simulated` tells whether this call is one that fails by chance. These errors have no code.
unfoldable pub create_conference : (ℕ → String) → Option ℕ → Bool → Links → Response String × Links
create_conference short none simulated links = (error 400 "", links)
create_conference short (some id) simulated links =
    if simulated
    then (error 500 "", links)
    else let (link, links') = get_or_create short id links in (json 200 link, links')
