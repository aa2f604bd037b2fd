-- ===== src/TaskQueue/Rules/Checks.antt =====
-- What the validation of `validate_priority` and `validate_status` lets through.
use agent_sam.Prelude.{String, true, ◌≡◌, contains, guarded-ok, ok, string_eq, nat_eq, option_eq}
use agent_sam.TaskQueue.Rules.{
  task_priorities, allowed_task_statuses, validate_priority, validate_status,
}

pub validate_status-ok :
    (s x : String) → validate_status s ≡ ok x → contains allowed_task_statuses s ≡ true
unfolding validate_status
validate_status-ok s x h = (guarded-ok _ (ok s) _ h).0

pub validate_priority-ok :
    (s x : String) → validate_priority s ≡ ok x → contains task_priorities s ≡ true
unfolding validate_priority
validate_priority-ok s x h = (guarded-ok _ (ok s) _ h).0
