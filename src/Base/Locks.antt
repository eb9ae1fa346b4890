-- ===== src/Base/Locks.antt =====
-- A lock with at most one holder: what a release by a claimant leaves of it.
use Prim.Native.Nat.{ℕ}
use mathlib.Core.Option.{Option, none, some}
use room_booking_platform.Base.Tests.{◌==◌, if◌then◌else◌}

abbrev pub released : ℕ → Option ℕ → Option ℕ
released claimant none = none
released claimant (some b) = if b == claimant then none else some b
