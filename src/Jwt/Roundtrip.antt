-- ===== src/Jwt/Roundtrip.antt =====
-- Issuing a token and validating it.
use room_booking_platform.Base.{
  ℕ, ◌*◌, ◌<◌, ◌≡◌, ◌≢◌, ap, ◌∙◌, String, true, Option, none, some, arith,
}
use room_booking_platform.Text.{pos}
use room_booking_platform.Clock.{second}
use room_booking_platform.Jwt.{
  Claims, TokenLibrary, IsPair, issuer, is_role, claims_of, accepted, generate_token,
  validate_token,
}

module _ (lib : TokenLibrary) where
  accepted_identity :
      (o : Option Claims) (c : Claims)
      → accepted o ≡ some c
      → (c.user ≢ 0) × (is_role c.role ≡ true)
  accepted_identity none c h = cc
  accepted_identity (some d) c h = ground arith

  accepted_known : (c : Claims) → c.user ≢ 0 → is_role c.role ≡ true → accepted (some c) ≡ some c
  accepted_known c u r = ground arith

  -- A token that is accepted has a user and one of the two roles.
  pub validate_token-HasIdentity :
      (key : Option lib.PublicKey) (now : ℕ) (token : lib.Token) (c : Claims)
      → validate_token lib key now token ≡ some c
      → (c.user ≢ 0) × (is_role c.role ≡ true)
  unfolding validate_token
  validate_token-HasIdentity none now token c h = cc
  validate_token-HasIdentity (some key) now token c h =
      accepted_identity (lib.parse key issuer now token) c h

  module _ (private_key : lib.PrivateKey) (public_key : lib.PublicKey)
      (pair : IsPair lib private_key public_key) where
    generated :
        (now user : ℕ) (role : String) (ttl : ℕ) (token : lib.Token)
        → generate_token lib (some private_key) now user role (pos ttl) ≡ some token
        → (user ≢ 0)
          × (is_role role ≡ true)
          × (lib.sign private_key (claims_of now user role ttl) ≡ some token)
    unfolding generate_token
    generated now user role ttl token h = ground arith

    pub validate-generate_token :
        (now user : ℕ) (role : String) (ttl later : ℕ) (token : lib.Token)
        → generate_token lib (some private_key) now user role (pos ttl) ≡ some token
        → later < (claims_of now user role ttl).expires_at * second
        → validate_token lib (some public_key) later token ≡ some (claims_of now user role ttl)
    unfolding validate_token
    validate-generate_token now user role ttl later token h t =
        let (someone, known, signed) = generated now user role ttl token h in
        ap accepted (pair.parse-sign (claims_of now user role ttl) token later signed t)
        ∙ accepted_known (claims_of now user role ttl) someone known
