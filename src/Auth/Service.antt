-- ===== src/Auth/Service.antt =====
-- services/auth-service/internal/service/auth.go
use room_booking_platform.Base.{
  ℕ, ◌*◌, String, Bool, false, ◌&&◌, ◌||◌, not, Option, none, some, List, [], ◌∷◌, Result, ok, err,
  Exec, ltb, if◌then◌else◌, same_text, length, map,
}
use room_booking_platform.Text.{Chars, pos, trim_space, same_chars, contains}
use room_booking_platform.Clock.{second}
use room_booking_platform.Jwt.{TokenLibrary, is_role, generate_token}
use room_booking_platform.Auth.Users.{
  Libraries, User, Db, create, get_by_email, passwordless, ensure_user,
}
use room_booking_platform.Auth.Users

-- `failed` is any other error.
pub data Error : Type 0 where
  invalid_credentials invalid_role email_exists invalid_email invalid_password : Error
  test_mode_disabled failed : Error

abbrev pub dummy_admin_id : ℕ
dummy_admin_id = 1

abbrev pub dummy_user_id : ℕ
dummy_user_id = 2

-- 24 hours
abbrev pub token_ttl : ℕ
token_ttl = 86_400 * second

abbrev domain : Chars
domain = b'@' ∷ b't' ∷ b'e' ∷ b's' ∷ b't' ∷ b'.' ∷ b'c' ∷ b'o' ∷ b'm' ∷ []

abbrev pub admin_email : Chars
admin_email = b'a' ∷ b'd' ∷ b'm' ∷ b'i' ∷ b'n' ∷ domain

abbrev pub user_email : Chars
user_email = b'u' ∷ b's' ∷ b'e' ∷ b'r' ∷ domain

module _ (lib : Libraries) where
  -- normalizeEmail
  abbrev pub normalize_email : Chars → Chars
  normalize_email email = map lib.to_lower (trim_space email)

  abbrev is_address : Option Chars → Chars → Bool
  is_address none email = false
  is_address (some address) email = same_chars address email && contains b'@' email

  -- validEmail
  abbrev pub valid_email : Chars → Bool
  valid_email email = is_address (lib.parse_address email) email

  pub record UserResponse : Type 0 where
    pub id : ℕ
    pub email : Chars
    pub role : String
    pub created_at : ℕ

  abbrev pub to_response : User lib → UserResponse
  to_response u = record { id = u.id; email = u.email; role = u.role; created_at = u.created_at }

  -- What the environment gives to Register: the salt of the hash, the UUID, and the statement.
  pub record RegisterEnv : Type 0 where
    pub salt : ℕ
    pub new_id : ℕ
    pub now : ℕ
    pub insert : Exec

  abbrev pub create_answer :
      Result Users.Error (User lib) × Db lib → Result Error UserResponse × Db lib
  create_answer (ok u, db) = (ok (to_response u), db)
  create_answer (err Users.Error.email_exists, db) = (err email_exists, db)
  create_answer (err Users.Error.user_not_found, db) = (err failed, db)
  create_answer (err Users.Error.database, db) = (err failed, db)

  abbrev pub new_user : RegisterEnv → Chars → lib.Hash → String → User lib
  new_user e email hash role = record {
    id = e.new_id;
    email = email;
    password_hash = some hash;
    role = role;
    created_at = e.now;
  }

  abbrev pub hashed :
      RegisterEnv → Chars → Option lib.Hash → String → Db lib → Result Error UserResponse × Db lib
  hashed e email none role db = (err failed, db)
  hashed e email (some hash) role db =
      create_answer (create lib e.insert (new_user e email hash role) db)

  -- AuthService.Register
  unfoldable pub register :
      Bool → RegisterEnv → Chars → List ℕ → String → Db lib → Result Error UserResponse × Db lib
  register test_mode e email password role db =
      if not (is_role role)
      then (err invalid_role, db)
      else if same_text role "admin" && not test_mode
      then (err test_mode_disabled, db)
      else if not (valid_email (normalize_email email))
      then (err invalid_email, db)
      else if ltb (length password) 8 || ltb 72 (length password)
      then (err invalid_password, db)
      else hashed e (normalize_email email) (lib.hash e.salt password) role db

  module _ (tokens : TokenLibrary) (key : Option tokens.PrivateKey) where
    abbrev pub token_answer : Option tokens.Token → Result Error tokens.Token
    token_answer none = err failed
    token_answer (some token) = ok token

    abbrev pub issue : ℕ → ℕ → String → Result Error tokens.Token
    issue now user role = token_answer (generate_token tokens key now user role (pos token_ttl))

    abbrev pub password_checked :
        ℕ → List ℕ → User lib → Option lib.Hash → Result Error tokens.Token
    password_checked now password u none = err invalid_credentials
    password_checked now password u (some hash) =
        if lib.matches hash password then issue now u.id u.role else err invalid_credentials

    abbrev pub login_found : ℕ → List ℕ → Result Users.Error (User lib) → Result Error tokens.Token
    login_found now password (ok u) = password_checked now password u u.password_hash
    login_found now password (err Users.Error.user_not_found) = err invalid_credentials
    login_found now password (err Users.Error.email_exists) = err failed
    login_found now password (err Users.Error.database) = err failed

    -- AuthService.Login
    unfoldable pub login : Bool → ℕ → Chars → List ℕ → Db lib → Result Error tokens.Token
    login fails now email password db =
        login_found now password (get_by_email lib fails (normalize_email email) db)

    abbrev pub dummy : ℕ → String → User lib
    dummy now role =
        if same_text role "admin"
        then passwordless lib now dummy_admin_id admin_email role
        else passwordless lib now dummy_user_id user_email role

    abbrev pub ensured :
        ℕ → User lib → Result Users.Error (Unit {0}) × Db lib → Result Error tokens.Token × Db lib
    ensured now u (ok _, db) = (issue now u.id u.role, db)
    ensured now u (err _, db) = (err failed, db)

    -- AuthService.DummyLogin
    unfoldable pub dummy_login :
        Bool → Exec → ℕ → String → Db lib → Result Error tokens.Token × Db lib
    dummy_login test_mode f now role db =
        if not test_mode
        then (err test_mode_disabled, db)
        else if not (is_role role)
        then (err invalid_role, db)
        else ensured now (dummy now role) (ensure_user lib f (dummy now role) db)

  abbrev pub seeded : Result Users.Error (Unit {0}) × Db lib → Result Error (Unit {0}) × Db lib
  seeded (ok _, db) = (ok tt, db)
  seeded (err _, db) = (err failed, db)

  abbrev pub seed_next :
      Exec → ℕ → Result Users.Error (Unit {0}) × Db lib → Result Error (Unit {0}) × Db lib
  seed_next f now (ok _, db) =
      seeded (ensure_user lib f (passwordless lib now dummy_user_id user_email "user") db)
  seed_next f now (err _, db) = (err failed, db)

  -- AuthService.Seed, with the ends of its two statements.
  unfoldable pub seed : Bool → Exec → Exec → ℕ → Db lib → Result Error (Unit {0}) × Db lib
  seed test_mode f g now db =
      if not test_mode
      then (err test_mode_disabled, db)
      else seed_next g now
          (ensure_user lib f (passwordless lib now dummy_admin_id admin_email "admin") db)
