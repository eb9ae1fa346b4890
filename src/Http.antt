-- ===== src/Http.antt =====
-- pkg/httputil/httputil.go: the responses that the handlers write. A response is a status with a
-- body, or a status with an error code; the text of an error message is left out.
use room_booking_platform.Base.{ℕ, String, Option, none, some}

pub data Response (A : Type 0) : Type 0 where
  json : ℕ → A → Response A
  error : ℕ → String → Response A

-- BadRequest
unfoldable pub bad_request : {A : Type 0} → Response A
bad_request = error 400 "INVALID_REQUEST"

-- Unauthorized
unfoldable pub unauthorized : {A : Type 0} → Response A
unauthorized = error 401 "UNAUTHORIZED"

-- Forbidden
unfoldable pub forbidden : {A : Type 0} → Response A
forbidden = error 403 "FORBIDDEN"

-- NotFound
unfoldable pub not_found : {A : Type 0} → String → Response A
not_found code = error 404 code

-- Conflict
unfoldable pub conflict : {A : Type 0} → String → Response A
conflict code = error 409 code

-- InternalError
unfoldable pub internal_error : {A : Type 0} → Response A
internal_error = error 500 "INTERNAL_ERROR"

abbrev pub status_of : {A : Type 0} → Response A → ℕ
status_of (json code _) = code
status_of (error code _) = code

-- What encoding/json finds in a request body, value by value: an error, the end, or a value that is
-- a `T` with no unknown field.
pub data Item (T : Type 0) : Type 0 where
  bad end : Item T
  value : T → Item T

-- DecodeJSON: one value, and then the end of the body.
unfoldable pub decode_json : {T : Type 0} → Item T → Item (Unit {0}) → Option T
decode_json (value v) end = some v
decode_json (value v) bad = none
decode_json (value v) (value _) = none
decode_json bad _ = none
decode_json end _ = none

-- How a call of another service over HTTP ends: the request does not arrive, it is served but the
-- answer does not come back, or the answer is read.
pub data Net : Type 0 where
  unsent unanswered answered : Net
