-- ===== src/Platform/Sessions.antt =====
-- A user's session across auth-service, the token library and the gateway.
use room_booking_platform.Base.{
  ℕ, ◌*◌, ◌<◌, ◌≡◌, refl, ◌≢◌, ap, sym, ◌∙◌, inl, inr, String, Bool, false, Option, none, some,
  List, ok, arith, if◌then◌else◌,
}
use room_booking_platform.Text.{Chars, pos}
use room_booking_platform.Clock.{second}
use room_booking_platform.Jwt.{
  Claims, TokenLibrary, IsPair, claims_of, generate_token, validate_token,
}
use room_booking_platform.Jwt.Roundtrip.{validate-generate_token}
use room_booking_platform.Auth.Users.{Libraries, Db}
use room_booking_platform.Auth.Service.{
  RegisterEnv, UserResponse, normalize_email, register, login, issue, token_ttl, token_answer,
}
use room_booking_platform.Auth.Login.{AreLibraries, login-register}
use room_booking_platform.Gateway.{
  Request, Upstream, names, user_id, user_role, auth, passed_on, extract_bearer_token, serve,
}
use room_booking_platform.Gateway.Admission.{serve-Identified}

module _ (lib : Libraries) (laws : AreLibraries lib) (tokens : TokenLibrary)
    (private_key : tokens.PrivateKey) (public_key : tokens.PublicKey)
    (pair : IsPair tokens private_key public_key) where
  issued_token :
      (o : Option tokens.Token) (token : tokens.Token)
      → token_answer lib tokens (some private_key) o ≡ ok token
      → o ≡ some token
  issued_token none token h = cc
  issued_token (some t) token h = ground arith

  -- A token that was issued is accepted until the second of its expiry, 24 hours later.
  issue_accepted :
      (now later user : ℕ) (role : String) (token : tokens.Token)
      → issue lib tokens (some private_key) now user role ≡ ok token
      → later < (claims_of now user role token_ttl).expires_at * second
      → validate_token tokens (some public_key) later token
        ≡ some (claims_of now user role token_ttl)
  issue_accepted now later user role token h t =
      validate-generate_token tokens private_key public_key pair now user role token_ttl later token
        (issued_token (generate_token tokens (some private_key) now user role (pos token_ttl)) token
          h)
        t

  module _ (token_of : Chars → tokens.Token) where
    proven_identity :
        (c d : Claims) (r out : Request) (id : ℕ) (role : String)
        → out.user ≡ (if names user_id r.connection then none else some c.user)
        → out.role ≡ (if names user_role r.connection then "" else c.role)
        → some c ≡ some d
        → d.user ≡ id
        → d.role ≡ role
        → (out.user ≡ (if names user_id r.connection then none else some id))
          × (out.role ≡ (if names user_role r.connection then "" else role))
    proven_identity c d r out id role u p e i k = ground arith

    -- Where bcrypt, the equality of emails and the key pair keep their laws: a user registers,
    -- logs in with the same password and a spelling of the email that is normalized to the same
    -- text, from a database that works, and sends a request with the token before it expires. If
    -- the gateway passes the request on, to a service other than auth-service, that service sees
    -- the id and the role of the registration, whatever X-User-ID and X-User-Role the client has set;
    -- of the two, it misses those that the Connection header of the client names.
    pub session_identity :
        (test_mode : Bool) (e : RegisterEnv lib) (email spelling : Chars) (password : List ℕ)
        (role : String) (db db' : Db lib) (user : UserResponse lib) (now later : ℕ)
        (token : tokens.Token) (r : Request) (up : Upstream) (out : Request)
        → register lib test_mode e email password role db ≡ (ok user, db')
        → normalize_email lib spelling ≡ normalize_email lib email
        → login lib tokens (some private_key) false now spelling password db' ≡ ok token
        → later < (claims_of now user.id user.role token_ttl).expires_at * second
        → token_of (extract_bearer_token r.authorization) ≡ token
        → serve tokens token_of public_key test_mode later r ≡ passed_on up out
        → up ≢ auth
        → (out.user ≡ (if names user_id r.connection then none else some user.id))
          × (out.role ≡ (if names user_role r.connection then "" else user.role))
    session_identity test_mode e email spelling password role db db' user now later token r up out
          registered same logged_in early sent served inside =
        let issued =
          sym (
            login-register lib laws tokens (some private_key) test_mode e email spelling password
              role db db' user now registered same)
          ∙ logged_in in
        let accepted = issue_accepted now later user.id user.role token issued early in
        elim (serve-Identified tokens token_of public_key later test_mode r up out served) [
          | inl public ↦ absurd (inside public)
          | inr i ↦
              proven_identity i.claims (claims_of now user.id user.role token_ttl) r out user.id
                user.role i.user i.role
                (sym (
                    ap (λ t. validate_token tokens (some public_key) later t) (sym sent)
                    ∙ i.proven.accepted)
                  ∙ accepted)
                refl refl
        ]
