-- ===== src/Auth/Roles.antt =====
-- Sequences of calls of auth-service: the table stays in order, and outside the test mode nobody
-- becomes an admin.
use room_booking_platform.Base.{
  ℕ, ◌≡◌, refl, sym, ◌⊎◌, inl, inr, String, Bool, true, false, ◌&&◌, not, Option, none, some, List,
  [], ◌∷◌, Result, ok, err, Exec, same_text, All, All-append, arith,
}
use mathlib.Core.Path.{subst}
use room_booking_platform.Text.{Chars}
use room_booking_platform.Jwt.{TokenLibrary, is_role}
use room_booking_platform.Auth.Users.{Libraries, User, Db, create, ensure_user, passwordless}
use room_booking_platform.Auth.Users
use room_booking_platform.Auth.Service.{
  RegisterEnv, new_user, register, hashed, create_answer, normalize_email, dummy, ensured,
  dummy_login, seed, seeded, seed_next, dummy_admin_id, admin_email, dummy_user_id, user_email,
}
use room_booking_platform.Auth.Accounts.{
  AreUsers, Adds, Adds-AreUsers, create-Adds, ensure_user-Adds,
}

module _ (lib : Libraries) (tokens : TokenLibrary) (key : Option tokens.PrivateKey) where
  -- A call that may change the table; a login never does.
  pub data Call (test_mode : Bool) (db : Db lib) : Db lib → Type 0 where
    registers :
        (e : RegisterEnv lib) (email : Chars) (password : List ℕ) (role : String)
        → Call test_mode db (register lib test_mode e email password role db).1
    dummy_logs_in :
        (f : Exec) (now : ℕ) (role : String)
        → Call test_mode db (dummy_login lib tokens key test_mode f now role db).1
    seeds : (f g : Exec) (now : ℕ) → Call test_mode db (seed lib test_mode f g now db).1

  -- The tables that calls lead to, from the empty one.
  pub data Reach (test_mode : Bool) : Db lib → Type 0 where
    empty : Reach test_mode []
    next : {db db' : Db lib} → Reach test_mode db → Call test_mode db db' → Reach test_mode db'

  create_answer-db : (p : Result Users.Error (User lib) × Db lib) → (create_answer lib p).1 ≡ p.1
  create_answer-db (ok u, db) = refl
  create_answer-db (err Users.Error.email_exists, db) = refl
  create_answer-db (err Users.Error.user_not_found, db) = refl
  create_answer-db (err Users.Error.database, db) = refl

  hashed-Adds :
      (e : RegisterEnv lib) (email : Chars) (o : Option lib.Hash) (role : String) (db : Db lib)
      → ((hashed lib e email o role db).1 ≡ db)
        ⊎ ((h : lib.Hash) × Adds lib
              (new_user lib e email h role)
              db
              (hashed lib e email o role db).1)
  hashed-Adds e email none role db = inl refl
  hashed-Adds e email (some h) role db =
      let u = new_user lib e email h role in
      inr (h, rw (create_answer-db (create lib e.insert u db)) (create-Adds lib e.insert u db))

  -- A registration leaves the table, or adds a user with the role that was asked for, which outside
  -- the test mode is not that of an admin.
  register_shape :
      (test_mode : Bool) (e : RegisterEnv lib) (email : Chars) (password : List ℕ) (role : String)
      (db : Db lib)
      → ((register lib test_mode e email password role db).1 ≡ db)
        ⊎ ((same_text role "admin" && not test_mode ≡ false)
            × (h : lib.Hash) × Adds lib
                (new_user lib e (normalize_email lib email) h role)
                db
                (register lib test_mode e email password role db).1)
  unfolding register
  register_shape test_mode e email password role db =
      ground (arith, hashed-Adds e (normalize_email lib email) (lib.hash e.salt password) role db)

  ensured-db :
      (now : ℕ) (u : User lib) (p : Result Users.Error (Unit {0}) × Db lib)
      → (ensured lib tokens key now u p).1 ≡ p.1
  ensured-db now u (ok _, db) = refl
  ensured-db now u (err _, db) = refl

  dummy_login_shape :
      (test_mode : Bool) (f : Exec) (now : ℕ) (role : String) (db : Db lib)
      → ((dummy_login lib tokens key test_mode f now role db).1 ≡ db)
        ⊎ ((test_mode ≡ true)
            × Adds lib
                (dummy lib tokens key now role)
                db
                (dummy_login lib tokens key test_mode f now role db).1)
  unfolding dummy_login
  dummy_login_shape test_mode f now role db =
      let u = dummy lib tokens key now role in
      ground (arith, ensured-db now u (ensure_user lib f u db), ensure_user-Adds lib f u db)

  seeded-db : (p : Result Users.Error (Unit {0}) × Db lib) → (seeded lib p).1 ≡ p.1
  seeded-db (ok _, db) = refl
  seeded-db (err _, db) = refl

  seed_next-AreUsers :
      (g : Exec) (now : ℕ) (p : Result Users.Error (Unit {0}) × Db lib)
      → AreUsers lib p.1
      → AreUsers lib (seed_next lib g now p).1
  seed_next-AreUsers g now (ok _, db) h =
      let user = passwordless lib now dummy_user_id user_email "user" in
      subst (AreUsers lib) (sym (seeded-db (ensure_user lib g user db)))
        (Adds-AreUsers lib user db _ (ensure_user-Adds lib g user db) h)
  seed_next-AreUsers g now (err _, db) h = h

  Call-AreUsers :
      {test_mode : Bool} {db db' : Db lib}
      → Call test_mode db db'
      → AreUsers lib db
      → AreUsers lib db'
  unfolding seed
  Call-AreUsers {test_mode} {db} (registers e email password role) h =
      elim (register_shape test_mode e email password role db) [
        | inl same ↦ subst (AreUsers lib) (sym same) h
        | inr (_, _, adds) ↦ Adds-AreUsers lib _ db _ adds h
      ]
  Call-AreUsers {test_mode} {db} (dummy_logs_in f now role) h =
      elim (dummy_login_shape test_mode f now role db) [
        | inl same ↦ subst (AreUsers lib) (sym same) h
        | inr (_, adds) ↦ Adds-AreUsers lib _ db _ adds h
      ]
  Call-AreUsers {test_mode = true} {db} (seeds f g now) h =
      let admin = passwordless lib now dummy_admin_id admin_email "admin" in
      seed_next-AreUsers g now (ensure_user lib f admin db)
        (Adds-AreUsers lib admin db _ (ensure_user-Adds lib f admin db) h)
  Call-AreUsers {test_mode = false} {db} (seeds f g now) h = h

  -- After any calls, ids and emails are unique and every role is one of the two.
  pub Reach-AreUsers : {test_mode : Bool} {db : Db lib} → Reach test_mode db → AreUsers lib db
  Reach-AreUsers empty = record { ids = tt; emails = tt; roles = tt }
  Reach-AreUsers (next r c) = Call-AreUsers c (Reach-AreUsers r)

  Adds-user :
      (u : User lib) (db db' : Db lib)
      → Adds lib u db db'
      → (is_role u.role ≡ true → same_text u.role "user" ≡ true)
      → All (λ v. same_text v.role "user" ≡ true) db
      → All (λ v. same_text v.role "user" ≡ true) db'
  Adds-user u db db' (inl same) user h =
      subst (All (λ v. same_text v.role "user" ≡ true)) (sym same) h
  Adds-user u db db' (inr (r, _, _, e)) user h =
      subst (All (λ v. same_text v.role "user" ≡ true)) (sym e)
        (All-append (λ v. same_text v.role "user" ≡ true) db (u ∷ []) h (user r, tt))

  user_role :
      (role : String)
      → same_text role "admin" && not false ≡ false
      → is_role role ≡ true
      → same_text role "user" ≡ true
  user_role role a r = ground arith

  Call-users :
      {db db' : Db lib}
      → Call false db db'
      → All (λ u. same_text u.role "user" ≡ true) db
      → All (λ u. same_text u.role "user" ≡ true) db'
  unfolding dummy_login seed
  Call-users {db} (registers e email password role) h =
      elim (register_shape false e email password role db) [
        | inl same ↦ subst (All (λ u. same_text u.role "user" ≡ true)) (sym same) h
        | inr (no_admin, _, adds) ↦ Adds-user _ db _ adds (user_role role no_admin) h
      ]
  Call-users (dummy_logs_in f now role) h = h
  Call-users (seeds f g now) h = h

  -- Outside the test mode, whatever registrations, dummy logins and seedings are called from the
  -- empty table, and however their statements end, every user has the role "user": nobody is an
  -- admin.
  pub Reach_users : {db : Db lib} → Reach false db → All (λ u. same_text u.role "user" ≡ true) db
  Reach_users empty = tt
  Reach_users (next r c) = Call-users c (Reach_users r)
