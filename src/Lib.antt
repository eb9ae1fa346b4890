-- ===== src/Lib.antt =====
-- Room booking platform: a model of its services and the theorems on them.
--
-- The platform is a set of services behind a gateway. availability-service keeps the schedules of
-- rooms and their half-hour slots in one database; booking-service keeps bookings and the jobs that
-- obtain conference links in another. A booking is created by a call of availability-service that
-- reserves the slot, a local transaction, and a compensating release if that transaction fails; it is
-- cancelled by a release and a local change. Two workers extend the slots and process the jobs; the
-- links come from conference-mock-service. auth-service keeps the users and issues tokens, and
-- room-service keeps the rooms, which availability-service asks about before it makes a schedule.
-- api-gateway authenticates a request by its token and sets the headers that the services trust;
-- the reverse proxy then removes those that the client's Connection header names.
--
-- Which file models which part:
--   Base and its children: shared types, tests and lemmas; Base/Results has the ends of a statement
--     (done, failed without an effect, lost: an effect without an answer) and of a commit.
--   Text, Clock: what the services use of Go's strings, strconv and time packages.
--   Http: pkg/httputil/httputil.go.
--   Jwt: pkg/jwt/jwt.go (GenerateToken, ValidateToken), with Jwt/Roundtrip.
--   Availability/Tables, Slots, Schedules, Generation:
--     services/availability-service/internal/repository/repository.go and migrations; Db is the
--     content of the tables.
--   Availability/Service, Handler: internal/service/service.go and internal/handler/handler.go of
--     services/availability-service.
--   Availability/Acceptance, Stored, Offers, Invariant, Reservation, Handover, Holders, Rounds,
--     Coverage, Insertion, Dates, Scheduled, Extension, Horizon: theorems on these. Availability/Worker:
--     services/availability-service/internal/worker/worker.go.
--   Booking/Tables, Bookings, Jobs: services/booking-service/internal/repository/repository.go.
--   Booking/SlotService: availability-service as an interface with laws: the two calls, and the work
--     that it does by itself (ExtendSlots, in Platform/Slots).
--   Booking/Service, Worker: services/booking-service/internal/service/service.go; World is the pair
--     of the two databases.
--   Booking/Ticks: services/booking-service/internal/worker/worker.go.
--   Booking/Handler: services/booking-service/internal/handler/handler.go.
--   Booking/Creation, Saga, Cancellation, CancelErrors, Consistency, Insertion, Closing, Claims,
--     Processing, Progress, Listing, Pages, Answers: theorems on these.
--   Booking/Requests: CreateBooking and CancelBooking of the same service.go as requests that stand
--     between two calls of a database or of availability-service; Booking/Interleaving: any number
--     of them and the worker, of which a step runs one call; Booking/Alone, Rows, Holding, Calls,
--     Withdrawals, Interleaved, Uniqueness: theorems on these.
--   Platform/Slots: availability-service as an implementation of that interface.
--   Platform/Routing: Routes of the handlers of the four services behind the gateway.
--   Platform/Sessions, Platform/Rooms: a user from the registration to a request that the gateway
--     passes on, and the check of a room by availability-service as room-service answers it.
--   Auth/Users, Service, Handler: internal/repository/user.go, internal/service/auth.go and
--     internal/handler/handler.go of services/auth-service; Auth/Accounts, Roles, Login: theorems.
--   Rooms/Table, Handler: internal/repository/room.go and internal/handler/handler.go of
--     services/room-service, with Rooms/Existence.
--   Conference/Store, Handler: internal/store/store.go and internal/handler/handler.go of
--     services/conference-mock-service; Conference/Threads: GetOrCreate as goroutines that interleave
--     at each access of the lock and of the map, with Conference/Locking and Conference/Links.
--   Gateway: services/api-gateway/cmd/main.go and internal/middleware/auth.go, with
--     Gateway/Admission and Gateway/Admission/Roles.
--   Tests: the theorems at concrete tables and requests.
--
-- An operation takes the tables and gives an answer and the tables. What the environment decides is
-- an argument: the clock, new UUIDs, and how each statement, commit and call over HTTP ends. SQL
-- statements are operations on lists of rows, with the constraints of the migrations. A UUID is a
-- number with 0 as the nil UUID, and an instant is a number of nanoseconds since 1970 in UTC.
--
-- The two loops of GenerateSlots run on fuel: 48 rounds for a day, which has 48 half hours, and one
-- round for each day of the range and one more; Availability/Coverage compares the loops on this fuel
-- with the list of all wanted slots, and Availability/Dates and Scheduled with the calendar.
--
-- The RWMutex of the links is its number of readers and whether a writer is announced: an RLock waits
-- for a Lock that waits itself, as the documentation of package sync says. An int has 64 bits: the
-- offset of a page wraps.
--
-- Parameters: the TIME type of PostgreSQL (TimeColumn), the library golang-jwt with its keys
-- (TokenLibrary), bcrypt, mail.ParseAddress, unicode.ToLower and the equality of CITEXT (Libraries),
-- the text of a UUID (`short`), uuid.Parse and the parsing of URLs and of the date parameter, by their
-- results.
--
-- Not modelled: the rounding of instants to microseconds in the database, the texts of error
-- messages, the size limits on bodies, request cancellation, timeouts, logs, the loading of keys,
-- the timers of the workers, and process start-up, which are input and output only. Where requests
-- interleave, a transaction, a call of another service and an ExtendSlots run whole; the worker's
-- jobs are ended on any answer at any time, of which what the worker does is one case. Two runs of
-- the generation of slots do not interleave. In Interleaving, `withdrawn` records which bookings a
-- CancelBooking has released; the code keeps no such record, and no step reads it.
pub mod Base
pub mod Text
pub mod Clock
pub mod Http
pub mod Jwt
pub mod Availability
pub mod Booking
pub mod Platform
pub mod Gateway
pub mod Auth
pub mod Rooms
pub mod Conference
pub mod Tests
