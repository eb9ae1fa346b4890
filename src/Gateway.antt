-- ===== src/Gateway.antt =====
-- services/api-gateway: the routes of cmd/main.go and the checks of internal/middleware/auth.go. A
-- request is routed first; the middlewares of its route then refuse it or pass it on to a service.
pub mod Admission
use room_booking_platform.Base.{
  ℕ, ◌+◌, ◌-◌, String, Bool, true, false, ◌&&◌, ◌||◌, not, Option, none, some, List, [], ◌∷◌, leb,
  ◌==◌, if◌then◌else◌, same_text, map, find, exists,
}
use room_booking_platform.Text.{Chars, same_chars}
use room_booking_platform.Http.{Response, unauthorized, forbidden}
use room_booking_platform.Jwt.{Claims, TokenLibrary, validate_token}

pub data Method : Type 0 where
  get post : Method

abbrev pub same_method : Method → Method → Bool
same_method get get = true
same_method get post = false
same_method post get = false
same_method post post = true

pub data Header : Type 0 where
  authorization_header user_id user_role : Header

abbrev same_header : Header → Header → Bool
same_header authorization_header authorization_header = true
same_header user_id user_id = true
same_header user_role user_role = true
same_header _ _ = false

-- Whether a list of headers has this one.
abbrev pub names : Header → List Header → Bool
names h hs = exists (same_header h) hs

-- The headers Authorization, X-User-ID, X-User-Role and Connection; a user id is the UUID that it is
-- read as, a missing role is empty, and `connection` is which of the other three the Connection
-- header names.
pub record Request : Type 0 where
  pub method : Method
  pub path : List String
  pub authorization : Chars
  pub user : Option ℕ
  pub role : String
  pub connection : List Header

pub data Upstream : Type 0 where
  auth room availability booking : Upstream

-- A request that is passed on has the path and the headers that it has by then.
pub data Answer : Type 0 where
  not_routed : Answer
  refused : Response (Unit {0}) → Answer
  passed_on : Upstream → Request → Answer

-- A segment of a pattern: a text, or a parameter.
pub data Segment : Type 0 where
  text : String → Segment
  param : Segment

-- The router lets a parameter be empty, unless it ends the pattern.
abbrev pub path_matches : List Segment → List String → Bool
path_matches [] [] = true
path_matches [] (s ∷ ss) = false
path_matches (p ∷ ps) [] = false
path_matches (text t ∷ ps) (s ∷ ss) = same_text t s && path_matches ps ss
path_matches (param ∷ []) (s ∷ ss) = not (same_text s "") && path_matches [] ss
path_matches (param ∷ p ∷ ps) (s ∷ ss) = path_matches (p ∷ ps) ss

-- What a route asks for: nothing, a token, or a token with one of the roles.
pub data Access : Type 0 where
  open_to_all any_token : Access
  with_role : List String → Access

-- The path that is passed on: a fixed one (proxyTo), or that of the request
-- (proxyToWithPathRewrite).
pub data Target : Type 0 where
  fixed : List String → Target
  kept : Target

pub record Route : Type 0 where
  pub method : Method
  pub pattern : List Segment
  pub access : Access
  pub upstream : Upstream
  pub target : Target

abbrev plain : Method → List String → Access → Upstream → Route
plain method path access upstream = record {
  method = method;
  pattern = map text path;
  access = access;
  upstream = upstream;
  target = fixed path;
}

abbrev rewritten : Method → List Segment → Access → Upstream → Route
rewritten method pattern access upstream = record {
  method = method;
  pattern = pattern;
  access = access;
  upstream = upstream;
  target = kept;
}

abbrev pub admin : Access
admin = with_role ("admin" ∷ [])

abbrev public_routes : Bool → List Route → List Route
public_routes test_mode rest =
    plain post ("register" ∷ []) open_to_all auth
    ∷ plain post ("login" ∷ []) open_to_all auth
    ∷ (if test_mode then plain post ("dummyLogin" ∷ []) open_to_all auth ∷ rest else rest)

abbrev pub protected_routes : List Route
protected_routes =
    plain get ("rooms" ∷ "list" ∷ []) any_token room
    ∷ plain post ("rooms" ∷ "create" ∷ []) admin room
    ∷ rewritten post (text "rooms" ∷ param ∷ text "schedule" ∷ text "create" ∷ []) admin
        availability
    ∷ rewritten get (text "rooms" ∷ param ∷ text "slots" ∷ text "list" ∷ []) any_token availability
    ∷ plain post ("bookings" ∷ "create" ∷ []) any_token booking
    ∷ plain get ("bookings" ∷ "my" ∷ []) any_token booking
    ∷ plain get ("bookings" ∷ "list" ∷ []) admin booking
    ∷ rewritten post (text "bookings" ∷ param ∷ text "cancel" ∷ []) any_token booking
    ∷ []

-- The routes that main registers, but for /_info.
unfoldable pub routes : Bool → List Route
routes test_mode = public_routes test_mode protected_routes

abbrev pub route_matches : Request → Route → Bool
route_matches r route = same_method route.method r.method && path_matches route.pattern r.path

-- The text after the first space, if the text before it is "bearer" in any letter case.
abbrev lower : ℕ → ℕ
lower c = if leb b'A' c && leb c b'Z' then c + 32 else c

-- strings.SplitN by a space into at most two parts
abbrev cut : Chars → Option (Chars × Chars)
cut [] = none
cut (c ∷ s) =
    let rest = cut s in
    if c == b' '
    then some ([], s)
    else elim rest [ none ↦ none | some (before, after) ↦ some (c ∷ before, after) ]

abbrev bearer : Chars
bearer = b'b' ∷ b'e' ∷ b'a' ∷ b'r' ∷ b'e' ∷ b'r' ∷ []

abbrev token_in : Option (Chars × Chars) → Chars
token_in none = []
token_in (some (scheme, token)) = if same_chars (map lower scheme) bearer then token else []

-- extractBearerToken
unfoldable pub extract_bearer_token : Chars → Chars
extract_bearer_token authorization = token_in (cut authorization)

abbrev pub target_path : Target → List String → List String
target_path (fixed path) _ = path
target_path kept path = path

-- The reverse proxy removes the headers that Connection names, and Connection itself, after the
-- Director has run.
abbrev pub remove_named : Request → Request
remove_named r = record r {
  authorization = if names authorization_header r.connection then [] else r.authorization;
  user = if names user_id r.connection then none else r.user;
  role = if names user_role r.connection then "" else r.role;
  connection = [];
}

-- proxyTo and proxyToWithPathRewrite, as far as the gateway decides
unfoldable pub proxy : Route → Request → Answer
proxy route r =
    passed_on route.upstream (remove_named (record r { path = target_path route.target r.path }))

-- RequireRole
unfoldable pub require_role : List String → (Request → Answer) → Request → Answer
unfolding forbidden
require_role roles next r =
    if exists (λ allowed. same_text r.role allowed) roles then next r else refused forbidden

module _ (lib : TokenLibrary) (token_of : Chars → lib.Token) where
  abbrev identified : Option Claims → (Request → Answer) → Request → Answer
  identified none next r = refused unauthorized
  identified (some c) next r = next (record r { user = some c.user; role = c.role })

  abbrev with_token : lib.PublicKey → ℕ → Chars → (Request → Answer) → Request → Answer
  with_token key now [] next r = refused unauthorized
  with_token key now (c ∷ token) next r =
      identified (validate_token lib (some key) now (token_of (c ∷ token))) next r

  -- AuthMiddleware.RequireAuth
  unfoldable pub require_auth : lib.PublicKey → ℕ → (Request → Answer) → Request → Answer
  unfolding unauthorized
  require_auth key now next r = with_token key now (extract_bearer_token r.authorization) next r

  -- The middlewares of a route, in the order of registration.
  unfoldable pub guard : lib.PublicKey → ℕ → Access → (Request → Answer) → Request → Answer
  guard key now open_to_all next r = next r
  guard key now any_token next r = require_auth key now next r
  guard key now (with_role roles) next r = require_auth key now (require_role roles next) r

  abbrev routed : lib.PublicKey → ℕ → Option Route → Request → Answer
  routed key now none r = not_routed
  routed key now (some route) r = guard key now route.access (proxy route) r

  -- The router that main builds.
  unfoldable pub serve : lib.PublicKey → Bool → ℕ → Request → Answer
  serve key test_mode now r = routed key now (find (route_matches r) (routes test_mode)) r
