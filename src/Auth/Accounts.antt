-- ===== src/Auth/Accounts.antt =====
-- What the table of users satisfies, and what each call of the service does to it.
use room_booking_platform.Base.{
  ◌≡◌, refl, ◌⊎◌, inl, inr, true, false, [], ◌∷◌, ◌++◌, Exec, exists, All, All-append, AllPairs,
  Distinct, Distinct-snoc, arith,
}
use room_booking_platform.Jwt.{is_role}
use room_booking_platform.Auth.Users.{
  Libraries, User, Db, has_id, has_email, clashes, create, ensure_user,
}

module _ (lib : Libraries) where
  -- Ids and emails are unique, and a role is one of the two.
  pub record AreUsers (db : Db lib) : Type 0 where
    pub ids : Distinct (λ u. u.id) db
    pub emails : AllPairs (λ u v. lib.same_email u.email v.email ≡ false) db
    pub roles : All (λ u. is_role u.role ≡ true) db

  emails-snoc :
      (db : Db lib) (u : User lib)
      → exists (has_email lib u.email) db ≡ false
      → AllPairs (λ v w. lib.same_email v.email w.email ≡ false) db
      → AllPairs (λ v w. lib.same_email v.email w.email ≡ false) (db ++ u ∷ [])
  emails-snoc [] u e h = (tt, tt)
  emails-snoc (v ∷ db) u e h = (
    All-append (λ w. lib.same_email v.email w.email ≡ false) db (u ∷ []) h.0 (ground arith, tt),
    emails-snoc db u (ground arith) h.1,
  )

  no_id :
      (u : User lib) (db : Db lib)
      → exists (clashes lib u) db ≡ false
      → exists (has_id lib u.id) db ≡ false
  no_id u [] h = refl
  no_id u (v ∷ db) h = ground (arith, no_id u db)

  no_email :
      (u : User lib) (db : Db lib)
      → exists (clashes lib u) db ≡ false
      → exists (has_email lib u.email) db ≡ false
  no_email u [] h = refl
  no_email u (v ∷ db) h = ground (arith, no_email u db)

  added-AreUsers :
      (u : User lib) (db : Db lib)
      → is_role u.role ≡ true
      → exists (has_id lib u.id) db ≡ false
      → exists (has_email lib u.email) db ≡ false
      → AreUsers db
      → AreUsers (db ++ u ∷ [])
  added-AreUsers u db r i e h = record {
    ids = Distinct-snoc (λ v. v.id) db u i h.ids;
    emails = emails-snoc db u e h.emails;
    roles = All-append (λ v. is_role v.role ≡ true) db (u ∷ []) h.roles (r, tt);
  }

  -- A call either leaves the table or adds one user, whose id and email are new.
  abbrev pub Adds : User lib → Db lib → Db lib → Type 0
  Adds u db db' =
      (db' ≡ db)
      ⊎ ((is_role u.role ≡ true)
          × (exists (has_id lib u.id) db ≡ false)
          × (exists (has_email lib u.email) db ≡ false)
          × (db' ≡ db ++ u ∷ []))

  pub Adds-AreUsers : (u : User lib) (db db' : Db lib) → Adds u db db' → AreUsers db → AreUsers db'
  Adds-AreUsers u db db' (inl e) h = rw e h
  Adds-AreUsers u db db' (inr (r, i, m, e)) h = rw e (added-AreUsers u db r i m h)

  pub create-Adds : (f : Exec) (u : User lib) (db : Db lib) → Adds u db (create lib f u db).1
  unfolding create
  create-Adds f u db = ground (arith, no_id u db, no_email u db)

  pub ensure_user-Adds :
      (f : Exec) (u : User lib) (db : Db lib) → Adds u db (ensure_user lib f u db).1
  unfolding ensure_user
  ensure_user-Adds f u db = ground arith
