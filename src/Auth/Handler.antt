-- ===== src/Auth/Handler.antt =====
-- services/auth-service/internal/handler/handler.go. A body is what the JSON decoder finds in it, and
-- a text the list of its characters.
use room_booking_platform.Base.{
  ℕ, String, Bool, true, false, ◌&&◌, ◌||◌, not, Option, none, some, List, [], ◌∷◌, Result, ok, err,
  Exec, if◌then◌else◌, same_text,
}
use room_booking_platform.Text.{Chars}
use room_booking_platform.Http.{
  Response, json, Item, decode_json, bad_request, unauthorized, forbidden, internal_error,
}
use room_booking_platform.Jwt.{TokenLibrary}
use room_booking_platform.Auth.Users.{Libraries, Db}
use room_booking_platform.Auth.Service.{
  Error, UserResponse, RegisterEnv, register, login, dummy_login, seed,
}

pub record RegisterRequest : Type 0 where
  pub email : Chars
  pub password : List ℕ
  pub role : String

pub record LoginRequest : Type 0 where
  pub email : Chars
  pub password : List ℕ

abbrev is_empty {ℓ} : {A : Type ℓ} → List A → Bool
is_empty [] = true
is_empty (x ∷ xs) = false

module _ (lib : Libraries) where
  abbrev pub register_response : Result Error (UserResponse lib) → Response (UserResponse lib)
  register_response (ok u) = json 201 u
  register_response (err Error.invalid_role) = bad_request
  register_response (err Error.email_exists) = bad_request
  register_response (err Error.invalid_email) = bad_request
  register_response (err Error.invalid_password) = bad_request
  register_response (err Error.invalid_credentials) = internal_error
  register_response (err Error.test_mode_disabled) = internal_error
  register_response (err Error.failed) = internal_error

  abbrev register_decoded :
      Bool
      → RegisterEnv lib
      → Option RegisterRequest
      → Db lib
      → Response (UserResponse lib) × Db lib
  register_decoded test_mode e none db = (bad_request, db)
  register_decoded test_mode e (some req) db =
      if is_empty req.email || is_empty req.password || same_text req.role ""
      then (bad_request, db)
      else if same_text req.role "admin" && not test_mode
      then (forbidden, db)
      else let (r, db') = register lib test_mode e req.email req.password req.role db in
        (register_response r, db')

  -- Handler.Register
  unfoldable pub register_user :
      Bool
      → RegisterEnv lib
      → Item RegisterRequest
      → Item (Unit {0})
      → Db lib
      → Response (UserResponse lib) × Db lib
  unfolding bad_request forbidden internal_error
  register_user test_mode e first rest db = register_decoded test_mode e (decode_json first rest) db

  module _ (tokens : TokenLibrary) (key : Option tokens.PrivateKey) where
    abbrev login_response : Result Error tokens.Token → Response tokens.Token
    login_response (ok token) = json 200 token
    login_response (err Error.invalid_credentials) = unauthorized
    login_response (err _) = internal_error

    abbrev login_decoded : Bool → ℕ → Option LoginRequest → Db lib → Response tokens.Token
    login_decoded fails now none db = bad_request
    login_decoded fails now (some req) db =
        login_response (login lib tokens key fails now req.email req.password db)

    -- Handler.Login
    unfoldable pub login_user :
        Bool → ℕ → Item LoginRequest → Item (Unit {0}) → Db lib → Response tokens.Token
    unfolding bad_request unauthorized internal_error
    login_user fails now first rest db = login_decoded fails now (decode_json first rest) db

    abbrev dummy_response : Result Error tokens.Token → Response tokens.Token
    dummy_response (ok token) = json 200 token
    dummy_response (err Error.invalid_role) = bad_request
    dummy_response (err _) = internal_error

    abbrev dummy_decoded : Bool → Exec → ℕ → Option String → Db lib → Response tokens.Token × Db lib
    dummy_decoded test_mode f now none db = (bad_request, db)
    dummy_decoded test_mode f now (some role) db =
        let (r, db') = dummy_login lib tokens key test_mode f now role db in (dummy_response r, db')

    -- Handler.DummyLogin, on the role of the request
    unfoldable pub dummy_login_user :
        Bool → Exec → ℕ → Item String → Item (Unit {0}) → Db lib → Response tokens.Token × Db lib
    unfolding bad_request internal_error
    dummy_login_user test_mode f now first rest db =
        dummy_decoded test_mode f now (decode_json first rest) db

  abbrev seed_response : Result Error (Unit {0}) → Response (Unit {0})
  seed_response (ok _) = json 200 tt
  seed_response (err _) = internal_error

  -- Handler.Seed
  unfoldable pub seed_users : Bool → Exec → Exec → ℕ → Db lib → Response (Unit {0}) × Db lib
  unfolding internal_error
  seed_users test_mode f g now db =
      let (r, db') = seed lib test_mode f g now db in (seed_response r, db')
