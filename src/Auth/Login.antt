-- ===== src/Auth/Login.antt =====
-- Registration, login, and the token that the other services accept.
use room_booking_platform.Base.{
  ℕ, ◌≡◌, refl, String, Bool, true, false, Option, none, some, List, [], ◌∷◌, ◌++◌, Result, ok, err,
  Exec, find, exists, arith,
}
use room_booking_platform.Text.{Chars}
use room_booking_platform.Jwt.{TokenLibrary}
use room_booking_platform.Auth.Users.{
  Libraries, User, Db, has_id, has_email, clashes, create, ensure_user, get_by_email, found,
  passwordless,
}
use room_booking_platform.Auth.Users
use room_booking_platform.Auth.Service.{
  RegisterEnv, UserResponse, new_user, register, hashed, create_answer, normalize_email, login,
  login_found, password_checked, token_answer, issue, token_ttl, dummy, ensured, dummy_login,
  dummy_admin_id, admin_email,
}
use room_booking_platform.Auth.Service

-- What the libraries promise: an email is equal to itself, and a hash fits the password that it was
-- made of.
pub record AreLibraries (lib : Libraries) : Type 0 where
  pub same_refl : (email : Chars) → lib.same_email email email ≡ true
  pub matches-hash :
      (salt : ℕ) (password : List ℕ) (h : lib.Hash)
      → lib.hash salt password ≡ some h
      → lib.matches h password ≡ true

module _ (lib : Libraries) (laws : AreLibraries lib) where
  find_new :
      (u : User lib) (db : Db lib)
      → exists (clashes lib u) db ≡ false
      → find (has_email lib u.email) (db ++ u ∷ []) ≡ some u
  find_new u [] h = ground (arith, laws.same_refl u.email)
  find_new u (v ∷ db) h = ground (arith, find_new u db)

  create_ok :
      (f : Exec) (u v : User lib) (db db' : Db lib)
      → create lib f u db ≡ (ok v, db')
      → (v ≡ u) × (find (has_email lib u.email) db' ≡ some u)
  unfolding create
  create_ok Exec.done u v db db' h = ground (arith, find_new u db)
  create_ok Exec.failed u v db db' h = cc
  create_ok Exec.lost u v db db' h = cc

  answer_ok :
      (p : Result Users.Error (User lib) × Db lib) (r : UserResponse lib) (db' : Db lib)
      → create_answer lib p ≡ (ok r, db')
      → (v : User lib) × (p ≡ (ok v, db')) × (r.id ≡ v.id) × (r.role ≡ v.role)
  answer_ok (ok u, db) r db' h = (u, ground arith, ground arith, ground arith)
  answer_ok (err Users.Error.email_exists, db) r db' h = cc
  answer_ok (err Users.Error.user_not_found, db) r db' h = cc
  answer_ok (err Users.Error.database, db) r db' h = cc

  hashed_ok :
      (e : RegisterEnv lib) (email : Chars) (o : Option lib.Hash) (role : String) (db db' : Db lib)
      (r : UserResponse lib)
      → hashed lib e email o role db ≡ (ok r, db')
      → (h : lib.Hash) × (o ≡ some h)
        × (find (has_email lib email) db' ≡ some (new_user lib e email h role))
        × (r.id ≡ e.new_id)
        × (r.role ≡ role)
  hashed_ok e email none role db db' r h = cc
  hashed_ok e email (some x) role db db' r h =
      let u = new_user lib e email x role in
      let (v, made, i, k) = answer_ok (create lib e.insert u db) r db' h in
      let (same, there) = create_ok e.insert u v db db' made in
      (x, refl, there, rw same at i, rw same at k)

  register_ok :
      (test_mode : Bool) (e : RegisterEnv lib) (email : Chars) (password : List ℕ) (role : String)
      (db db' : Db lib) (r : UserResponse lib)
      → register lib test_mode e email password role db ≡ (ok r, db')
      → hashed lib e (normalize_email lib email) (lib.hash e.salt password) role db ≡ (ok r, db')
  unfolding register
  register_ok test_mode e email password role db db' r h = ground arith

  module _ (tokens : TokenLibrary) (key : Option tokens.PrivateKey) where
    -- Where an email is equal to itself and a hash fits the password that it was made of: after a
    -- registration that succeeds, a login with the password, under any spelling of the email that
    -- is normalized to the same text and from a database that works, has the answer of issuing a
    -- token for the id and the role of the registration.
    pub login-register :
        (test_mode : Bool) (e : RegisterEnv lib) (email spelling : Chars) (password : List ℕ)
        (role : String) (db db' : Db lib) (r : UserResponse lib) (now : ℕ)
        → register lib test_mode e email password role db ≡ (ok r, db')
        → normalize_email lib spelling ≡ normalize_email lib email
        → login lib tokens key false now spelling password db'
          ≡ issue lib tokens key now r.id r.role
    unfolding login get_by_email
    login-register test_mode e email spelling password role db db' r now h same =
        let (x, hash, there, i, k) =
          hashed_ok e (normalize_email lib email) (lib.hash e.salt password) role db db' r
            (register_ok test_mode e email password role db db' r h) in
        rw (same, there, i, k, laws.matches-hash e.salt password x hash) refl

    -- What a login that succeeds has found.
    pub record LoggedIn (now : ℕ) (email : Chars) (password : List ℕ) (db : Db lib)
        (token : tokens.Token) : Type 0 where
      pub user : User lib
      pub known : find (has_email lib (normalize_email lib email)) db ≡ some user
      pub hash : lib.Hash
      pub hashed : user.password_hash ≡ some hash
      pub fits : lib.matches hash password ≡ true
      pub issued : issue lib tokens key now user.id user.role ≡ ok token

    checked_ok :
        (now : ℕ) (email : Chars) (password : List ℕ) (db : Db lib) (token : tokens.Token)
        (u : User lib) (o : Option lib.Hash)
        → find (has_email lib (normalize_email lib email)) db ≡ some u
        → u.password_hash ≡ o
        → password_checked lib tokens key now password u o ≡ ok token
        → LoggedIn now email password db token
    checked_ok now email password db token u none at e h = cc
    checked_ok now email password db token u (some x) at e h = record {
      user = u;
      known = at;
      hash = x;
      hashed = e;
      fits = ground arith;
      issued = ground arith;
    }

    found_login :
        (now : ℕ) (email : Chars) (password : List ℕ) (db : Db lib) (token : tokens.Token)
        (o : Option (User lib))
        → find (has_email lib (normalize_email lib email)) db ≡ o
        → login_found lib tokens key now password (found lib o) ≡ ok token
        → LoggedIn now email password db token
    found_login now email password db token none at h = cc
    found_login now email password db token (some u) at h =
        checked_ok now email password db token u u.password_hash at refl h

    -- A login that succeeds has found a user with the email, who has a password, and the password
    -- fits; the token is the one issued for that user.
    pub login-LoggedIn :
        (fails : Bool) (now : ℕ) (email : Chars) (password : List ℕ) (db : Db lib)
        (token : tokens.Token)
        → login lib tokens key fails now email password db ≡ ok token
        → LoggedIn now email password db token
    unfolding login get_by_email
    login-LoggedIn true now email password db token h = cc
    login-LoggedIn false now email password db token h =
        found_login now email password db token _ refl h

    -- Where another user has the email of the dummy admin and nobody has its id, DummyLogin for an
    -- admin fails, in the test mode and with a database that works.
    pub dummy_login_taken :
        (now : ℕ) (db : Db lib)
        → exists (has_id lib dummy_admin_id) db ≡ false
        → exists (has_email lib admin_email) db ≡ true
        → dummy_login lib tokens key true Exec.done now "admin" db ≡ (err Service.Error.failed, db)
    unfolding dummy_login ensure_user
    dummy_login_taken now db i e = ground arith
