-- ===== src/Tests/Gateway.antt =====
-- The theorems on tokens and on the gateway, at a library whose tokens are the claims themselves.
use room_booking_platform.Base.{
  ℕ, ◌*◌, ◌<◌, ◌≡◌, ◌⊎◌, refl, String, true, false, ◌&&◌, none, some, [], ◌∷◌, ltb, arith,
  if◌then◌else◌, same_text,
}
use text.Mathlib.TextPositions.{eq_refl}
use room_booking_platform.Text.{Chars}
use room_booking_platform.Clock.{second}
use room_booking_platform.Jwt.{Claims, TokenLibrary, IsPair, claims_of, validate_token}
use room_booking_platform.Gateway.{
  post, Request, user_id, room, auth, passed_on, extract_bearer_token, require_auth, require_role,
  guard, proxy, routes, serve,
}
use room_booking_platform.Gateway.Admission.{Proves, Identified, serve-Identified}
use room_booking_platform.Gateway.Admission.Roles.{serve_admin}
use room_booking_platform.Platform.Routing.{Endpoint, endpoint_of, is_public, passed_on_public}

abbrev pub open_tokens : TokenLibrary
open_tokens = record {
  PrivateKey = Unit;
  PublicKey = Unit;
  Token = Claims;
  sign = λ k c. some c;
  parse = λ k issuer now c.
      if same_text c.issuer issuer && ltb now (c.expires_at * second) then some c else none;
}

pub same_text_refl : (s : String) → same_text s s ≡ true
same_text_refl s = eq_refl s

parsed_back :
    (c token : Claims) (now : ℕ)
    → now < c.expires_at * second
    → some c ≡ some token
    → open_tokens.parse tt c.issuer now token ≡ some c
parsed_back c token now t e =
    let same : token ≡ c = ground arith in
    let early : ltb now (c.expires_at * second) ≡ true = ground arith in
    rw (same, same_text_refl c.issuer, early) refl

pub open_tokens-IsPair : IsPair open_tokens tt tt
open_tokens-IsPair = record { parse-sign = λ c token now e t. parsed_back c token now t e }

abbrev admin_claims : Claims
admin_claims = claims_of second 6 "admin" (10 * second)

-- A request for a new room, by a client that writes another identity into the headers, and whose
-- Connection header names X-User-ID.
abbrev asks : Request
asks = record {
  method = post;
  path = "rooms" ∷ "create" ∷ [];
  authorization = b'B' ∷ b'e' ∷ b'a' ∷ b'r' ∷ b'e' ∷ b'r' ∷ b' ' ∷ b'x' ∷ [];
  user = some 1;
  role = "user";
  connection = user_id ∷ [];
}

abbrev seen : Request
seen = record asks { user = none; role = "admin"; connection = [] }

abbrev token_of : Chars → Claims
token_of t = admin_claims

served : serve open_tokens token_of tt false (2 * second) asks ≡ passed_on room seen
unfolding serve guard require_auth require_role proxy routes extract_bearer_token validate_token
served = refl

serve-Identified_example :
    (room ≡ auth) ⊎ Identified open_tokens token_of tt (2 * second) asks room seen
serve-Identified_example =
    serve-Identified open_tokens token_of tt (2 * second) false asks room seen served

serve_admin_example :
    (c : Claims) × Proves open_tokens token_of tt (2 * second) asks c
    × (same_text c.role "admin" ≡ true)
serve_admin_example =
    serve_admin open_tokens token_of tt (2 * second) false asks room seen served refl

passed_on_public_example :
    (p : Endpoint) × (endpoint_of false room seen.method seen.path ≡ some p) × (is_public p ≡ true)
passed_on_public_example =
    passed_on_public open_tokens token_of tt (2 * second) false asks room seen served
