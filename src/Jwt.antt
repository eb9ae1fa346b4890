-- ===== src/Jwt.antt =====
-- pkg/jwt/jwt.go: tokens of an identity. The library golang-jwt, with its keys, is a parameter.
pub mod Roundtrip
use room_booking_platform.Base.{
  ℕ, zero, suc, ◌+◌, ◌-◌, ◌*◌, ◌/◌, ◌<◌, ◌≡◌, ◌≢◌, refl, ap, sym, ◌∙◌, ◌⊎◌, inl, inr, String, Bool,
  true, false, ◌&&◌, ◌||◌, not, Option, none, some, if◌then◌else◌, ◌==◌, same_text, arith,
}
use room_booking_platform.Text.{ℤ, pos, negsuc}
use room_booking_platform.Clock.{second}

-- Claims; the times are those of the registered claims, in seconds.
pub record Claims : Type 0 where
  pub user : ℕ
  pub role : String
  pub issuer : String
  pub issued_at : ℕ
  pub expires_at : ℕ

-- `Token` is the type of the texts that are tokens. What this package calls: signing with RS256, and ParseWithClaims restricted to RS256 and to the
-- issuer, at an instant, where an error and a token that is not valid are `none`.
pub record TokenLibrary : Type 1 where
  pub PrivateKey : Type 0
  pub PublicKey : Type 0
  pub Token : Type 0
  pub sign : PrivateKey → Claims → Option Token
  pub parse : PublicKey → String → ℕ → Token → Option Claims

-- What the library documents for a pair of keys.
pub record IsPair (lib : TokenLibrary) (private_key : lib.PrivateKey) (public_key : lib.PublicKey)
    : Type 0 where
  -- A token that it signed is read back while it has not expired, if the issuer is the one asked for.
  pub parse-sign :
      (c : Claims) (token : lib.Token) (now : ℕ)
      → lib.sign private_key c ≡ some token
      → now < c.expires_at * second
      → lib.parse public_key c.issuer now token ≡ some c

abbrev pub issuer : String
issuer = "room-booking"

abbrev pub is_role : String → Bool
is_role role = same_text role "admin" || same_text role "user"

-- The claims of a token that is issued at `now`, which NewNumericDate cuts to whole seconds.
abbrev pub claims_of : ℕ → ℕ → String → ℕ → Claims
claims_of now user role ttl = record {
  user = user;
  role = role;
  issuer = issuer;
  issued_at = now / second;
  expires_at = (now + ttl) / second;
}

abbrev pub accepted : Option Claims → Option Claims
accepted none = none
accepted (some c) = if c.user == 0 || not (is_role c.role) then none else some c

module _ (lib : TokenLibrary) where
  abbrev signed_for : Option lib.PrivateKey → ℕ → ℕ → String → ℤ → Option lib.Token
  signed_for none now user role ttl = none
  signed_for (some key) now user role (negsuc n) = none
  signed_for (some key) now user role (pos zero) = none
  signed_for (some key) now user role (pos (suc n)) = lib.sign key (claims_of now user role (suc n))

  -- GenerateToken; the nil key is `none`, and 0 is the nil UUID.
  unfoldable pub generate_token : Option lib.PrivateKey → ℕ → ℕ → String → ℤ → Option lib.Token
  generate_token key now user role ttl =
      if user == 0
      then none
      else if not (is_role role)
      then none
      else signed_for key now user role ttl

  -- ValidateToken
  unfoldable pub validate_token : Option lib.PublicKey → ℕ → lib.Token → Option Claims
  validate_token none now token = none
  validate_token (some key) now token = accepted (lib.parse key issuer now token)
