-- ===== src/Gateway/Admission/Roles.antt =====
-- The calls for admins only, and who gets through to them.
use room_booking_platform.Base.{
  ℕ, ◌≡◌, refl, ◌∙◌, inl, inr, Bool, true, false, [], ◌∷◌, same_text, find, find_passes, arith, All,
  find_All,
}
use room_booking_platform.Text.{Chars}
use room_booking_platform.Jwt.{Claims, TokenLibrary}
use room_booking_platform.Gateway.{
  Method, get, post, Request, Upstream, auth, room, availability, booking, passed_on, admin, Route,
  routes, protected_routes, serve, route_matches, path_matches, text,
}
use room_booking_platform.Gateway.Admission.{
  proxied, Proves, Through, guard_passed, passed_public, served, IsPublic, routes-IsPublic,
}

abbrev is_post : Method → Bool
is_post get = false
is_post post = true

-- The calls for admins only: a POST to room-service or availability-service, and the list of all
-- bookings.
abbrev pub is_admin_call : Upstream → Request → Bool
is_admin_call auth r = false
is_admin_call room r = is_post r.method
is_admin_call availability r = is_post r.method
is_admin_call booking r = path_matches (text "bookings" ∷ text "list" ∷ []) r.path

auth_ne_admin_call : {up : Upstream} (r : Request) → up ≡ auth → is_admin_call up r ≡ true → ⊥
auth_ne_admin_call r e a = ground arith

module _ (lib : TokenLibrary) (token_of : Chars → lib.Token) (key : lib.PublicKey) (now : ℕ) where
  IsGuarded : Route → Type 0
  IsGuarded route =
      (r : Request) (c : Claims)
      → route_matches r route ≡ true
      → is_admin_call route.upstream (proxied lib token_of key now route r c) ≡ true
      → route.access ≡ admin

  protected_IsGuarded : All IsGuarded protected_routes
  unfolding IsGuarded proxied
  protected_IsGuarded = (
    λ r c m a. ground arith,
    (
      λ r c m a. refl,
      (
        λ r c m a. refl,
        (
          λ r c m a. ground arith,
          (λ r c m a. cc, (λ r c m a. cc, (λ r c m a. refl, (λ r c m a. ground arith, tt)))),
        ),
      ),
    ),
  )

  routes-IsGuarded : (test_mode : Bool) → All IsGuarded (routes test_mode)
  unfolding routes IsGuarded
  routes-IsGuarded true = (λ r c m a. cc, (λ r c m a. cc, (λ r c m a. cc, protected_IsGuarded)))
  routes-IsGuarded false = (λ r c m a. cc, (λ r c m a. cc, protected_IsGuarded))

  -- A POST that is passed on to room-service or availability-service, and a request for the list
  -- of all bookings that is passed on, has a valid token whose role is that of an admin.
  pub serve_admin :
      (test_mode : Bool) (r : Request) (up : Upstream) (out : Request)
      → serve lib token_of key test_mode now r ≡ passed_on up out
      → is_admin_call up out ≡ true
      → (c : Claims) × Proves lib token_of key now r c × (same_text c.role "admin" ≡ true)
  unfolding serve Through IsGuarded IsPublic proxied
  serve_admin test_mode r up out h a =
      let (route, at, through) =
        served lib token_of key now test_mode r up out (find (route_matches r) (routes test_mode))
          refl h in
      elim (guard_passed lib token_of key now route route.access r up out through) [
        | inl e ↦ absurd (
            auth_ne_admin_call out
              (passed_public lib token_of key now route r up out e through
                ∙ find_All (IsPublic lib token_of key now) (route_matches r) (routes test_mode)
                    route (routes-IsPublic lib token_of key now test_mode) at e)
              a)
        | inr (c, p, u, o, only) ↦
            let guarded =
              find_All IsGuarded (route_matches r) (routes test_mode) route
                (routes-IsGuarded test_mode) at in
            let matched = find_passes (route_matches r) (routes test_mode) route at in
            (c, p, only (guarded r c matched (rw (u, o) at a)))
      ]
