-- ===== src/Auth/Users.antt =====
-- services/auth-service/internal/repository/user.go and migrations: the table `users` of auth_db.
use room_booking_platform.Base.{
  ℕ, String, Bool, ◌||◌, not, Option, none, some, List, [], ◌∷◌, ◌++◌, Result, ok, err, Exec, done,
  failed, lost, ◌==◌, if◌then◌else◌, find, exists,
}
use room_booking_platform.Text.{Chars}
use room_booking_platform.Jwt.{is_role}

-- What is known of texts and passwords only by what libraries say: unicode.ToLower of a character,
-- the address that mail.ParseAddress reads, the equality of the CITEXT type, and bcrypt. A hash is
-- made with a salt; a password is its bytes.
pub record Libraries : Type 1 where
  pub to_lower : ℕ → ℕ
  pub parse_address : Chars → Option Chars
  pub same_email : Chars → Chars → Bool
  pub Hash : Type 0
  pub hash : ℕ → List ℕ → Option Hash
  pub matches : Hash → List ℕ → Bool

pub data Error : Type 0 where
  user_not_found email_exists database : Error

module _ (lib : Libraries) where
  pub record User : Type 0 where
    pub id : ℕ
    pub email : Chars
    pub password_hash : Option lib.Hash
    pub role : String
    pub created_at : ℕ

  abbrev pub Db : Type 0
  Db = List User

  abbrev pub has_id : ℕ → User → Bool
  has_id id u = u.id == id

  abbrev pub has_email : Chars → User → Bool
  has_email email u = lib.same_email u.email email

  -- The unique violations, 23505: of the primary key and of the email.
  abbrev pub clashes : User → User → Bool
  clashes u v = has_id u.id v || has_email u.email v

  -- INSERT, with the CHECK on the role
  insert_user : User → Db → Result Error User × Db
  insert_user u db =
      if not (is_role u.role)
      then (err database, db)
      else if exists (clashes u) db
      then (err email_exists, db)
      else (ok u, db ++ u ∷ [])

  -- Create
  unfoldable pub create : Exec → User → Db → Result Error User × Db
  unfolding insert_user
  create done u db = insert_user u db
  create failed u db = (err database, db)
  create lost u db = (err database, (insert_user u db).1)

  abbrev pub found : Option User → Result Error User
  found none = err user_not_found
  found (some u) = ok u

  -- GetByEmail
  unfoldable pub get_by_email : Bool → Chars → Db → Result Error User
  get_by_email fails email db = if fails then err database else found (find (has_email email) db)

  -- GetByID, which does not read the hash.
  abbrev without_hash : Option User → Result Error User
  without_hash none = err user_not_found
  without_hash (some u) = ok (record u { password_hash = none })

  unfoldable pub get_by_id : Bool → ℕ → Db → Result Error User
  get_by_id fails id db = if fails then err database else without_hash (find (has_id id) db)

  abbrev pub passwordless : ℕ → ℕ → Chars → String → User
  passwordless now id email role = record {
    id = id;
    email = email;
    password_hash = none;
    role = role;
    created_at = now;
  }

  -- INSERT … ON CONFLICT (id) DO NOTHING
  ensure_row : User → Db → Result Error (Unit {0}) × Db
  ensure_row u db =
      if not (is_role u.role)
      then (err database, db)
      else if exists (has_id u.id) db
      then (ok tt, db)
      else if exists (has_email u.email) db
      then (err database, db)
      else (ok tt, db ++ u ∷ [])

  -- EnsureUser
  unfoldable pub ensure_user : Exec → User → Db → Result Error (Unit {0}) × Db
  unfolding ensure_row
  ensure_user done u db = ensure_row u db
  ensure_user failed u db = (err database, db)
  ensure_user lost u db = (err database, (ensure_row u db).1)
