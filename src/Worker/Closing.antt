-- ===== src/Worker/Closing.antt =====
-- How a round of the worker leaves the task that it claimed.
use agent_sam.Prelude.{
  ℕ, String, true, false, Option, none, some, ◌≡◌, inl, inr, refl, contains, ◌==◌, string_eq,
  nat_eq, if◌then◌else◌, Bool-cases, option_eq,
}
use agent_sam.Database.{Task, Tables, get_task}
use agent_sam.TaskQueue.Rules.{allowed_task_statuses}
use agent_sam.TaskQueue.Claim.{claim_next_task}
use agent_sam.TaskQueue.Change.{change, update_task_status, complete_task, pause_task, fail_task}
use agent_sam.TaskQueue.Change.Lifecycle.{
  HasLifecycle, update_task_status-succeeds, update_task_status-HasLifecycle,
}
use agent_sam.Worker.{
  Handled, returned, raised, Round, tables_after, close_task, worker_claim, worker_round,
}

-- The status that stands for an ending.
abbrev pub closing_status : Handled → String
closing_status (raised text) = "failed"
closing_status (returned status final_summary) =
    if status == "completed" then "completed" else if status == "paused" then "paused" else "failed"

abbrev pub IsClosed : ℕ → String → ℕ → Tables → Tables → Type 0
IsClosed now status id db after =
    (old new : Task) × (get_task id db ≡ some old)
    × (get_task id after ≡ some new)
    × HasLifecycle now status old new

IsClosed-update :
    (r : Round) (id : ℕ) (status : String) (error_text : Option String) (db : Tables) (old : Task)
    → contains allowed_task_statuses status ≡ true
    → r.locked id ≡ false
    → get_task id db ≡ some old
    → IsClosed r.now status id db (
        tables_after db
          (update_task_status r.locked r.locked_runs (change r.now id status error_text) db))
IsClosed-update r id status error_text db old allowed free found =
    let c = change r.now id status error_text in
    let done = update_task_status-succeeds r.locked r.locked_runs c db old allowed free found in
    let (old', found', life, _, stored, _) =
      update_task_status-HasLifecycle r.locked r.locked_runs c db _ _ done in
    (old', _, found', rw done stored, life)

-- However `handle_task` ended, by a result or by an exception, the task's row gets the status
-- that stands for the ending.
close_task-IsClosed :
    (r : Round) (id : ℕ) (handled : Handled) (db : Tables) (old : Task)
    → r.locked id ≡ false
    → get_task id db ≡ some old
    → IsClosed r.now (closing_status handled) id db (tables_after db (close_task r id handled db))
unfolding close_task complete_task pause_task fail_task
close_task-IsClosed r id (raised text) db old free found =
    IsClosed-update r id "failed" (some text) db old refl free found
close_task-IsClosed r id (returned status summary) db old free found =
    let closed =
      λ (s : String) (error_text : Option String)
          (allowed : contains allowed_task_statuses s ≡ true).
        IsClosed-update r id s error_text db old allowed free found in
    elim (Bool-cases (status == "completed")) [
      | inl e ↦ rw e (closed "completed" none refl)
      | inr e ↦ rw e (elim (Bool-cases (status == "paused")) [
        | inl f ↦ rw f (closed "paused" none refl)
        | inr f ↦ rw f (elim (Bool-cases (status == "failed")) [
          | inl g ↦ rw g (closed "failed" _ refl)
          | inr g ↦ rw g (closed "failed" _ refl)
        ])
      ])
    ]

-- A round that claims a task leaves it completed, paused or failed, as its handling ended (an
-- exception and an unknown result status count as failed), with the fields of that status: no task
-- stays running. This holds if the row is still there after the handling and nobody else holds it.
pub worker_round-IsClosed :
    (r : Round) (db claimed handled_db : Tables) (t old : Task) (handled : Handled)
    → claim_next_task (worker_claim r) db ≡ (some t, claimed)
    → r.handle_task t claimed ≡ (handled, handled_db)
    → r.locked t.id ≡ false
    → get_task t.id handled_db ≡ some old
    → IsClosed r.now (closing_status handled) t.id handled_db (worker_round r db).1
unfolding worker_round
worker_round-IsClosed r db claimed handled_db t old handled taken ran free found =
    rw (taken, ran) (close_task-IsClosed r t.id handled handled_db old free found)
