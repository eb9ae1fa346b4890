-- ===== src/Base/Results.antt =====
-- Results, and how a statement or a commit that is sent to PostgreSQL may end.
use mathlib.Core.Bool.{Bool, true, false}

pub data Result {ℓ κ} (E : Type ℓ) (A : Type κ) : Type (ℓ ⊔ κ) where
  ok : A → Result E A
  err : E → Result E A

abbrev pub is_ok {ℓ κ} : {E : Type ℓ} {A : Type κ} → Result E A → Bool
is_ok (ok _) = true
is_ok (err _) = false

-- One statement outside a transaction: it runs and answers, it fails with no effect, or it takes
-- effect and the answer is lost.
pub data Exec : Type 0 where
  done failed lost : Exec

-- A COMMIT: acknowledged, known to be rolled back, or with its answer lost (`true` if it applied).
pub data Commit : Type 0 where
  acked rolled_back : Commit
  unknown : Bool → Commit

abbrev pub commits : Commit → Bool
commits acked = true
commits rolled_back = false
commits (unknown applied) = applied
