-- ===== src/Gateway/Admission.antt =====
-- Who gets through the gateway, and as whom.
pub mod Roles
use room_booking_platform.Base.{
  ℕ, if◌then◌else◌, ◌≡◌, refl, ap, sym, ◌∙◌, ◌≢◌, ◌⊎◌, inl, inr, String, Bool, true, false, Option,
  none, some, List, [], ◌∷◌, same_text, find, exists, find_passes, arith, All, find_All,
}
use mathlib.Core.Path.{subst}
use room_booking_platform.Text.{Chars}
use room_booking_platform.Http.{Response, unauthorized}
use room_booking_platform.Jwt.{Claims, TokenLibrary, validate_token}
use room_booking_platform.Gateway.{
  Method, get, post, Request, Upstream, auth, room, availability, booking, Answer, not_routed,
  refused, passed_on, Access, open_to_all, any_token, with_role, admin, Route, extract_bearer_token,
  proxy, require_role, require_auth, guard, routes, routed, protected_routes, serve, with_token,
  identified, names, user_id, user_role, remove_named, target_path, route_matches, path_matches,
  text,
}

roles_of : Access → List String
roles_of open_to_all = []
roles_of any_token = []
roles_of (with_role roles) = roles

upstream_of : Answer → Upstream
upstream_of not_routed = auth
upstream_of (refused x) = auth
upstream_of (passed_on up out) = up

not_routed_ne : {up : Upstream} {out : Request} → not_routed ≡ passed_on up out → ⊥
not_routed_ne h = cc

refused_ne :
    {x : Response (Unit {0})} {up : Upstream} {out : Request} → refused x ≡ passed_on up out → ⊥
refused_ne h = cc

ne_admin : any_token ≡ admin → ⊥
ne_admin h = cc

module _ (lib : TokenLibrary) (token_of : Chars → lib.Token) (key : lib.PublicKey) (now : ℕ) where
  -- The claims that the token of a request proves.
  pub record Proves (r : Request) (c : Claims) : Type 0 where
    pub token : extract_bearer_token r.authorization ≢ []
    pub accepted :
        validate_token lib (some key) now (token_of (extract_bearer_token r.authorization)) ≡ some c

  -- The request is passed on with the identity that its token proves, less what the Connection
  -- header of the client names.
  pub record Identified (r : Request) (upstream : Upstream) (out : Request) : Type 0 where
    pub claims : Claims
    pub proven : Proves r claims
    pub user : out.user ≡ (if names user_id r.connection then none else some claims.user)
    pub role : out.role ≡ (if names user_role r.connection then "" else claims.role)

  Shape : (Request → Answer) → Request → Answer → Type 0
  Shape next r a =
      (a ≡ refused unauthorized)
      ⊎ ((c : Claims) × Proves r c × (a ≡ next (record r { user = some c.user; role = c.role })))

  identified-Shape :
      (t : Chars) (next : Request → Answer) (r : Request) (o : Option Claims)
      → t ≢ []
      → extract_bearer_token r.authorization ≡ t
      → validate_token lib (some key) now (token_of t) ≡ o
      → Shape next r (identified lib token_of o next r)
  unfolding Shape unauthorized
  identified-Shape t next r none ne e v = inl refl
  identified-Shape t next r (some c) ne e v = inr (
    c,
    record {
      token = λ x. ne (sym e ∙ x);
      accepted = ap (λ u. validate_token lib (some key) now (token_of u)) e ∙ v;
    },
    refl,
  )

  with_token-Shape :
      (t : Chars) (next : Request → Answer) (r : Request)
      → extract_bearer_token r.authorization ≡ t
      → Shape next r (with_token lib token_of key now t next r)
  unfolding Shape unauthorized
  with_token-Shape [] next r e = inl refl
  with_token-Shape (c ∷ t) next r e =
      identified-Shape (c ∷ t) next r (validate_token lib (some key) now (token_of (c ∷ t)))
        (λ x. cc) e refl

  require_auth-Shape :
      (next : Request → Answer) (r : Request)
      → Shape next r (require_auth lib token_of key now next r)
  unfolding require_auth unauthorized
  require_auth-Shape next r = with_token-Shape (extract_bearer_token r.authorization) next r refl

  proxied : Route → Request → Claims → Request
  proxied route r c =
      remove_named
        (record r { user = some c.user; role = c.role; path = target_path route.target r.path })

  -- What a route with this access lets through.
  Through : Route → Access → Request → Upstream → Request → Type 0
  Through route a r up out =
      (a ≡ open_to_all)
      ⊎ ((c : Claims) × Proves r c
          × (up ≡ route.upstream)
          × (out ≡ proxied route r c)
          × (a ≡ admin → same_text c.role "admin" ≡ true))

  require_role_passed :
      (roles : List String) (route : Route) (q : Request) (up : Upstream) (out : Request)
      → require_role roles (proxy route) q ≡ passed_on up out
      → (exists (λ allowed. same_text q.role allowed) roles ≡ true)
        × (proxy route q ≡ passed_on up out)
  unfolding require_role
  require_role_passed roles route q up out h = ground arith

  proxy_passed :
      (route : Route) (r : Request) (c : Claims) (up : Upstream) (out : Request)
      → proxy route (record r { user = some c.user; role = c.role }) ≡ passed_on up out
      → (up ≡ route.upstream) × (out ≡ proxied route r c)
  unfolding proxy proxied
  proxy_passed route r c up out h = ground arith

  admin_only :
      (role : String) (roles : List String)
      → exists (λ allowed. same_text role allowed) roles ≡ true
      → with_role roles ≡ admin
      → same_text role "admin" ≡ true
  unfolding roles_of
  admin_only role roles e h =
      ground (
        arith,
        subst (λ rs. exists (λ allowed. same_text role allowed) rs ≡ true) (ap roles_of h) e,
      )

  guard_passed :
      (route : Route) (a : Access) (r : Request) (up : Upstream) (out : Request)
      → guard lib token_of key now a (proxy route) r ≡ passed_on up out
      → Through route a r up out
  unfolding guard Shape Through
  guard_passed route open_to_all r up out h = inl refl
  guard_passed route any_token r up out h = elim (require_auth-Shape (proxy route) r) [
    | inl e ↦ absurd (refused_ne (sym e ∙ h))
    | inr (c, p, e) ↦
        let (u, o) = proxy_passed route r c up out (sym e ∙ h) in
        inr (c, p, u, o, λ x. absurd (ne_admin x))
  ]
  guard_passed route (with_role roles) r up out h =
      elim (require_auth-Shape (require_role roles (proxy route)) r) [
        | inl e ↦ absurd (refused_ne (sym e ∙ h))
        | inr (c, p, e) ↦
            let q = record r { user = some c.user; role = c.role } in
            let (some_role, next) = require_role_passed roles route q up out (sym e ∙ h) in
            let (u, o) = proxy_passed route r c up out next in
            inr (c, p, u, o, admin_only c.role roles some_role)
      ]

  IsPublic : Route → Type 0
  IsPublic route = route.access ≡ open_to_all → route.upstream ≡ auth

  protected_IsPublic : All IsPublic protected_routes
  unfolding IsPublic
  protected_IsPublic =
      (λ e. cc, (λ e. cc, (λ e. cc, (λ e. cc, (λ e. cc, (λ e. cc, (λ e. cc, (λ e. cc, tt))))))))

  routes-IsPublic : (test_mode : Bool) → All IsPublic (routes test_mode)
  unfolding routes IsPublic
  routes-IsPublic true = (λ e. refl, (λ e. refl, (λ e. refl, protected_IsPublic)))
  routes-IsPublic false = (λ e. refl, (λ e. refl, protected_IsPublic))

  passed_public :
      (route : Route) (r : Request) (up : Upstream) (out : Request)
      → route.access ≡ open_to_all
      → guard lib token_of key now route.access (proxy route) r ≡ passed_on up out
      → up ≡ route.upstream
  unfolding guard proxy upstream_of
  passed_public route r up out e h = ap upstream_of (sym (rw e at h))

  served :
      (test_mode : Bool) (r : Request) (up : Upstream) (out : Request) (o : Option Route)
      → find (route_matches r) (routes test_mode) ≡ o
      → routed lib token_of key now o r ≡ passed_on up out
      → (route : Route) × (find (route_matches r) (routes test_mode) ≡ some route)
        × (guard lib token_of key now route.access (proxy route) r ≡ passed_on up out)
  served test_mode r up out none e h = absurd (not_routed_ne h)
  served test_mode r up out (some route) e h = (route, e, h)

  -- A request that reaches a service other than auth-service has a valid token. The user and the
  -- role that the service sees are those of the token, whatever X-User-ID and X-User-Role the client
  -- sent; a client whose Connection header names one of the two removes it, and cannot set it.
  pub serve-Identified :
      (test_mode : Bool) (r : Request) (up : Upstream) (out : Request)
      → serve lib token_of key test_mode now r ≡ passed_on up out
      → (up ≡ auth) ⊎ Identified r up out
  unfolding serve Through proxied IsPublic
  serve-Identified test_mode r up out h =
      let (route, at, through) =
        served test_mode r up out (find (route_matches r) (routes test_mode)) refl h in
      elim (guard_passed route route.access r up out through) [
        | inl e ↦ inl (
            passed_public route r up out e through
            ∙ find_All IsPublic (route_matches r) (routes test_mode) route
                (routes-IsPublic test_mode) at e)
        | inr (c, p, u, o, a) ↦ inr (record {
          claims = c;
          proven = p;
          user = ap (λ q. q.user) o;
          role = ap (λ q. q.role) o;
        })
      ]

  -- A request that is passed on goes where its route says, with the path that the route gives it.
  pub record Forwarded (test_mode : Bool) (r : Request) (up : Upstream) (out : Request)
      : Type 0 where
    pub route : Route
    pub chosen : find (route_matches r) (routes test_mode) ≡ some route
    pub upstream : up ≡ route.upstream
    pub method : out.method ≡ r.method
    pub path : out.path ≡ target_path route.target r.path

  open_forwards :
      (route : Route) (r : Request) (up : Upstream) (out : Request)
      → route.access ≡ open_to_all
      → guard lib token_of key now route.access (proxy route) r ≡ passed_on up out
      → (up ≡ route.upstream)
        × (out ≡ remove_named (record r { path = target_path route.target r.path }))
  unfolding guard proxy
  open_forwards route r up out e h = let q = rw e at h in ground (arith, q)

  pub serve-Forwarded :
      (test_mode : Bool) (r : Request) (up : Upstream) (out : Request)
      → serve lib token_of key test_mode now r ≡ passed_on up out
      → Forwarded test_mode r up out
  unfolding serve Through proxied
  serve-Forwarded test_mode r up out h =
      let (route, at, through) =
        served test_mode r up out (find (route_matches r) (routes test_mode)) refl h in
      elim (guard_passed route route.access r up out through) [
        | inl e ↦
            let (u, o) = open_forwards route r up out e through in
            record {
              route = route;
              chosen = at;
              upstream = u;
              method = ap (λ q. q.method) o;
              path = ap (λ q. q.path) o;
            }
        | inr (c, p, u, o, _) ↦ record {
          route = route;
          chosen = at;
          upstream = u;
          method = ap (λ q. q.method) o;
          path = ap (λ q. q.path) o;
        }
      ]
