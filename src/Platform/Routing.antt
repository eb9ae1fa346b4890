-- ===== src/Platform/Routing.antt =====
-- Routes of the handlers behind the gateway: which endpoint a request that is passed on reaches.
use room_booking_platform.Base.{
  ℕ, ◌≡◌, refl, String, Bool, true, false, ◌&&◌, Option, none, some, List, [], ◌∷◌, find, find_All,
  find_passes, if◌then◌else◌, arith, All,
}
use room_booking_platform.Text.{Chars}
use room_booking_platform.Jwt.{TokenLibrary}
use room_booking_platform.Gateway.{
  Method, get, post, same_method, Request, Upstream, auth, room, availability, booking, passed_on,
  Segment, text, param, path_matches, Route, route_matches, routes, protected_routes, target_path,
  serve,
}
use room_booking_platform.Gateway.Admission.{serve-Forwarded}

-- The handlers that the services register.
pub data Endpoint : Type 0 where
  health : Endpoint
  register login dummy_login seed : Endpoint
  create_room list_rooms get_room : Endpoint
  create_schedule list_slots book_slot release_slot get_slot : Endpoint
  create_booking list_bookings my_bookings cancel_booking : Endpoint

pub record Registered : Type 0 where
  pub method : Method
  pub pattern : List Segment
  pub endpoint : Endpoint

abbrev on : Method → List Segment → Endpoint → Registered
on method pattern endpoint = record { method = method; pattern = pattern; endpoint = endpoint }

-- Routes of the four services.
abbrev auth_routes : Bool → List Registered
auth_routes test_mode =
    on get (text "_health" ∷ []) health
    ∷ on post (text "register" ∷ []) register
    ∷ on post (text "login" ∷ []) login
    ∷ (if test_mode
        then on post (text "dummyLogin" ∷ []) dummy_login ∷ on post (text "seed" ∷ []) seed ∷ []
        else [])

abbrev room_routes : List Registered
room_routes =
    on get (text "_health" ∷ []) health
    ∷ on post (text "rooms" ∷ text "create" ∷ []) create_room
    ∷ on get (text "rooms" ∷ text "list" ∷ []) list_rooms
    ∷ on get (text "internal" ∷ text "rooms" ∷ param ∷ []) get_room
    ∷ []

abbrev availability_routes : List Registered
availability_routes =
    on get (text "_health" ∷ []) health
    ∷ on post (text "rooms" ∷ param ∷ text "schedule" ∷ text "create" ∷ []) create_schedule
    ∷ on get (text "rooms" ∷ param ∷ text "slots" ∷ text "list" ∷ []) list_slots
    ∷ on post (text "internal" ∷ text "slots" ∷ text "book" ∷ []) book_slot
    ∷ on post (text "internal" ∷ text "slots" ∷ text "release" ∷ []) release_slot
    ∷ on get (text "internal" ∷ text "slots" ∷ param ∷ []) get_slot
    ∷ []

abbrev booking_routes : List Registered
booking_routes =
    on get (text "_health" ∷ []) health
    ∷ on post (text "bookings" ∷ text "create" ∷ []) create_booking
    ∷ on get (text "bookings" ∷ text "list" ∷ []) list_bookings
    ∷ on get (text "bookings" ∷ text "my" ∷ []) my_bookings
    ∷ on post (text "bookings" ∷ param ∷ text "cancel" ∷ []) cancel_booking
    ∷ []

abbrev registered : Bool → Upstream → List Registered
registered test_mode auth = auth_routes test_mode
registered test_mode room = room_routes
registered test_mode availability = availability_routes
registered test_mode booking = booking_routes

abbrev takes : Method → List String → Registered → Bool
takes method path e = same_method e.method method && path_matches e.pattern path

abbrev endpoint_found : Option Registered → Option Endpoint
endpoint_found none = none
endpoint_found (some e) = some e.endpoint

-- The endpoint that a service's router calls, if any.
unfoldable pub endpoint_of : Bool → Upstream → Method → List String → Option Endpoint
endpoint_of test_mode up method path =
    endpoint_found (find (takes method path) (registered test_mode up))

-- The endpoints of the public API.
abbrev pub is_public : Endpoint → Bool
is_public health = false
is_public seed = false
is_public get_room = false
is_public book_slot = false
is_public release_slot = false
is_public get_slot = false
is_public _ = true

-- Where a route leads, for every request that it takes.
Leads : Bool → Route → Type 0
Leads test_mode route =
    (r : Request)
    → route_matches r route ≡ true
    → (p : Endpoint) × (endpoint_of test_mode route.upstream r.method
          (target_path route.target r.path)
        ≡ some p)
      × (is_public p ≡ true)

protected-Leads : (test_mode : Bool) → All (Leads test_mode) protected_routes
unfolding Leads endpoint_of
protected-Leads test_mode = (
  (λ r h. (list_rooms, ground arith, refl)),
  (
    (λ r h. (create_room, ground arith, refl)),
    (
      (λ r h. (create_schedule, ground arith, refl)),
      (
        (λ r h. (list_slots, ground arith, refl)),
        (
          (λ r h. (create_booking, ground arith, refl)),
          (
            (λ r h. (my_bookings, ground arith, refl)),
            (
              (λ r h. (list_bookings, ground arith, refl)),
              ((λ r h. (cancel_booking, ground arith, refl)), tt),
            ),
          ),
        ),
      ),
    ),
  ),
)

routes-Leads : (test_mode : Bool) → All (Leads test_mode) (routes test_mode)
unfolding routes Leads endpoint_of
routes-Leads true = (
  (λ r h. (register, ground arith, refl)),
  (
    (λ r h. (login, ground arith, refl)),
    ((λ r h. (dummy_login, ground arith, refl)), protected-Leads true),
  ),
)
routes-Leads false = (
  (λ r h. (register, ground arith, refl)),
  ((λ r h. (login, ground arith, refl)), protected-Leads false),
)

module _ (lib : TokenLibrary) (token_of : Chars → lib.Token) (key : lib.PublicKey) (now : ℕ) where
  -- Where the gateway and auth-service agree on the test mode: every request that the gateway passes
  -- on is one that the router of the service takes, and it reaches an endpoint of the public API;
  -- the internal calls on slots and rooms, the seeding and the health checks are out of reach.
  pub passed_on_public :
      (test_mode : Bool) (r : Request) (up : Upstream) (out : Request)
      → serve lib token_of key test_mode now r ≡ passed_on up out
      → (p : Endpoint) × (endpoint_of test_mode up out.method out.path ≡ some p)
        × (is_public p ≡ true)
  unfolding Leads
  passed_on_public test_mode r up out h =
      let f = serve-Forwarded lib token_of key now test_mode r up out h in
      let lead =
        find_All (Leads test_mode) (route_matches r) (routes test_mode) f.route
          (routes-Leads test_mode) f.chosen in
      let (p, at, open_) =
        lead r (find_passes (route_matches r) (routes test_mode) f.route f.chosen) in
      (p, rw (f.upstream, f.method, f.path) at, open_)
