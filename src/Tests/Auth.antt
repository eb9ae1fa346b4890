-- ===== src/Tests/Auth.antt =====
-- The theorems on users and sessions, with passwords that are their own hashes.
use room_booking_platform.Base.{
  ℕ, ◌*◌, ◌≡◌, refl, true, false, some, List, [], ◌∷◌, ok, Exec, All, arith, same_text,
}
use room_booking_platform.Text.{Chars, same_chars, trim_space}
use room_booking_platform.Clock.{second}
use room_booking_platform.Jwt.{Claims, claims_of, generate_token, validate_token}
use room_booking_platform.Auth.Users.{Libraries, User, Db, create}
use room_booking_platform.Auth.Users
use room_booking_platform.Auth.Service.{
  RegisterEnv, UserResponse, register, login, issue, token_ttl,
}
use room_booking_platform.Auth.Roles.{Call, Reach, Reach_users}
use room_booking_platform.Auth.Login.{AreLibraries, login-register}
use room_booking_platform.Gateway.{
  Request, get, booking, serve, guard, require_auth, require_role, proxy, routes,
  extract_bearer_token,
}
use room_booking_platform.Platform.Sessions.{session_identity}
use room_booking_platform.Tests.Gateway.{open_tokens, open_tokens-IsPair}

abbrev libraries : Libraries
libraries = record {
  to_lower = λ c. c;
  parse_address = some;
  same_email = same_chars;
  Hash = List ℕ;
  hash = λ salt password. some password;
  matches = same_chars;
}

same_chars_refl : (t : Chars) → same_chars t t ≡ true
same_chars_refl [] = refl
same_chars_refl (c ∷ t) = ground (arith, same_chars_refl t)

libraries-AreLibraries : AreLibraries libraries
libraries-AreLibraries = record {
  same_refl = same_chars_refl;
  matches-hash = λ salt password h e. same_hash password h e;
}
  where
    same_hash : (p h : List ℕ) → some p ≡ some h → same_chars h p ≡ true
    same_hash p h e = let same : h ≡ p = ground arith in rw same (same_chars_refl p)

abbrev email : Chars
email = b'a' ∷ b'@' ∷ b'b' ∷ []

abbrev password : List ℕ
password = 1 ∷ 2 ∷ 3 ∷ 4 ∷ 5 ∷ 6 ∷ 7 ∷ 8 ∷ []

abbrev env : RegisterEnv libraries
env = record { salt = 0; new_id = 6; now = 0; insert = Exec.done }

abbrev anna : User libraries
anna = record {
  id = 6;
  email = email;
  password_hash = some password;
  role = "user";
  created_at = 0;
}

abbrev registered : UserResponse libraries
registered = record { id = 6; email = email; role = "user"; created_at = 0 }

register-anna : register libraries false env email password "user" [] ≡ (ok registered, anna ∷ [])
unfolding register create trim_space
register-anna = refl

-- The same email, with a space before it.
abbrev spelling : Chars
spelling = b' ' ∷ email

abbrev token : Claims
token = claims_of second 6 "user" token_ttl

login-register_example :
    login libraries open_tokens (some tt) false second spelling password (anna ∷ [])
    ≡ issue libraries open_tokens (some tt) second 6 "user"
unfolding trim_space
login-register_example =
    login-register libraries libraries-AreLibraries open_tokens (some tt) false env email spelling
      password "user" [] (anna ∷ []) registered second register-anna refl

Reach_users_example :
    All
      (λ u. same_text u.role "user" ≡ true)
      (register libraries false env email password "user" []).1
Reach_users_example =
    Reach_users libraries open_tokens (some tt)
      (Reach.next Reach.empty (Call.registers env email password "user"))

-- Anna asks for her bookings, and calls herself an admin in the headers.
abbrev asks : Request
asks = record {
  method = get;
  path = "bookings" ∷ "my" ∷ [];
  authorization = b'B' ∷ b'e' ∷ b'a' ∷ b'r' ∷ b'e' ∷ b'r' ∷ b' ' ∷ b'x' ∷ [];
  user = some 1;
  role = "admin";
  connection = [];
}

abbrev seen : Request
seen = record asks { user = some 6; role = "user" }

session_identity_example : (some 6 ≡ some registered.id) × ("user" ≡ registered.role)
unfolding trim_space login serve guard require_auth require_role proxy routes extract_bearer_token
    validate_token generate_token Users.get_by_email
session_identity_example =
    session_identity libraries libraries-AreLibraries open_tokens tt tt open_tokens-IsPair
      (λ t. token) false env email spelling password "user" [] (anna ∷ []) registered second
      (2 * second) token asks booking seen register-anna refl refl (omega arith) refl refl (λ e. cc)
