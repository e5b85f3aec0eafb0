-- ===== src/Domain/Errors.antt =====
-- internal/domain/types.go: the sentinel errors and the typed conflict. An error is modelled by the
-- sentinel that it wraps; the text that `fmt.Errorf` puts round it is left out.
use agent_inbox_question.Base.{ℕ, String, Bool, true, false, Result}
use agent_inbox_question.Domain.Status.{TaskStatus}

pub record TaskStatusConflict : Type 0 where
  pub task_id : ℕ
  pub expected : TaskStatus
  pub observed : TaskStatus
  pub expected_run_id : ℕ
  pub observed_run_id : ℕ

-- `failure` is any error that wraps none of the sentinels, `panic` a run-time panic of Go.
pub data Error : Type 0 where
  invalid_transition conflict not_found not_eligible lease_lost : Error
  task_status_conflict : TaskStatusConflict → Error
  failure : String → Error
  canceled panic : Error

abbrev pub Fallible {ℓ} : Type ℓ → Type ℓ
Fallible A = Result Error A

-- `errors.Is(err, domain.ErrConflict)`: a `TaskStatusConflict` unwraps to `ErrConflict`.
abbrev pub is_conflict : Error → Bool
is_conflict Error.conflict = true
is_conflict (Error.task_status_conflict _) = true
is_conflict _ = false

-- `errors.Is(err, domain.ErrNotFound)`.
abbrev pub is_not_found : Error → Bool
is_not_found Error.not_found = true
is_not_found _ = false

-- `errors.Is(err, domain.ErrLeaseLost)`.
abbrev pub is_lease_lost : Error → Bool
is_lease_lost Error.lease_lost = true
is_lease_lost _ = false
