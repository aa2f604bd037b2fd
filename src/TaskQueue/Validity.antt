-- ===== src/TaskQueue/Validity.antt =====
-- The tables after any sequence of calls.
use agent_sam.Prelude.{
  ℕ, String, Bool, true, Option, none, some, List, [], ◌∷◌, ◌++◌, ◌≡◌, inl, inr, arith, refl,
  Option-cases, All, All-map, All-append, All-update, update, contains, Outcome, Outcome-cases, ok,
  raise, >>=-eq-ok, nat_eq, string_eq, option_eq,
}
use agent_sam.Database.{Task, TaskRun, Tables, has_id, get_task}
use agent_sam.TaskQueue.Rules.Checks.{validate_status-ok, validate_priority-ok}
use agent_sam.TaskQueue.Rules.{
  task_priorities, allowed_task_statuses, validate_priority, validate_status,
}
use agent_sam.TaskQueue.Create.{
  TaskRequest, task_row, check_parent, for_parent, create_task, create_subtask,
}
use agent_sam.TaskQueue.Claim.{ClaimCall, claimed, claim_next_task}
use agent_sam.TaskQueue.Claim.Order.{IsClaim, claim_next_task-IsClaim}
use agent_sam.TaskQueue.Change.{
  StatusChange, with_status, update_task_status, reprioritize_task, select_for_update,
}
use agent_sam.TaskQueue.Change.Lifecycle.{
  with_status-same, with_status-status, with_status-priority,
}
use agent_sam.TaskQueue.Parents.{
  HasParent, Keeps, HasParent-update, check_parent-HasParent, find-HasParent-append,
}
use agent_sam.TaskQueue.Attempts.{
  HasDistinctAttempts, HasDistinctAttempts-snoc, next_attempt_number-gt,
  update_run-HasDistinctAttempts,
}

-- The calls that write, with what the environment chooses: locks, keys and times.
pub data Call : Type 0 where
  creates : (id now : ℕ) → TaskRequest → Call
  creates_subtask : (id now parent_task_id : ℕ) → TaskRequest → Call
  claims : ClaimCall → Call
  changes : (locked locked_runs : ℕ → Bool) → StatusChange → Call
  reprioritizes : (locked : ℕ → Bool) → (task_id : ℕ) → String → Call

-- An exception leaves the tables as they were.
abbrev after : {A : Type 0} → Tables → Outcome (A × Tables) → Tables
after db (ok (_, db')) = db'
after db (raise e) = db

pub step : Call → Tables → Tables
step (creates id now r) db = after db (create_task id now r db)
step (creates_subtask id now p r) db = after db (create_subtask id now p r db)
step (claims c) db = (claim_next_task c db).1
step (changes locked locked_runs c) db = after db (update_task_status locked locked_runs c db)
step (reprioritizes locked i p) db = after db (reprioritize_task locked i p db)

pub run : List Call → Tables → Tables
run [] db = db
run (c ∷ cs) db = run cs (step c db)

pub record IsValid (db : Tables) : Type 0 where
  pub statuses : All (λ t. contains allowed_task_statuses t.status ≡ true) db.tasks
  pub priorities : All (λ t. contains task_priorities t.priority ≡ true) db.tasks
  pub parents : All (HasParent db.tasks) db.tasks
  pub attempts : HasDistinctAttempts db.task_runs

update-IsValid :
    (p : Task → Bool) (f : Task → Task) (db : Tables) (runs : List TaskRun)
    → Keeps f
    → ((t : Task)
        → contains allowed_task_statuses t.status ≡ true
        → contains allowed_task_statuses (f t).status ≡ true)
    → ((t : Task)
        → contains task_priorities t.priority ≡ true
        → contains task_priorities (f t).priority ≡ true)
    → HasDistinctAttempts runs
    → IsValid db
    → IsValid (record { tasks = update p f db.tasks; task_runs = runs })
update-IsValid p f db runs keeps s q d v = record {
  statuses = All-update _ p f db.tasks s v.statuses;
  priorities = All-update _ p f db.tasks q v.priorities;
  parents = HasParent-update p f keeps db.tasks v.parents;
  attempts = d;
}

-- The checks of `create_task`, read back from a success.
create_task-checked :
    (id now : ℕ) (r : TaskRequest) (db after : Tables) (t : Task)
    → create_task id now r db ≡ ok (t, after)
    → (contains allowed_task_statuses r.status ≡ true)
      × (contains task_priorities r.priority ≡ true)
      × (check_parent r.parent_task_id r.workspace_id db ≡ ok tt)
      × (after ≡ record db { tasks = db.tasks ++ (task_row id now r ∷ []) })
unfolding create_task
create_task-checked id now r db after t h =
    let (p, prioritised, rest) = >>=-eq-ok (validate_priority r.priority) _ h in
    let (s, allowed, rest') = >>=-eq-ok (validate_status r.status) _ rest in
    let (u, checked, made) = >>=-eq-ok (check_parent r.parent_task_id r.workspace_id db) _ rest' in
    (
      validate_status-ok r.status s allowed,
      validate_priority-ok r.priority p prioritised,
      checked,
      ground arith,
    )

create_task-IsValid :
    (id now : ℕ) (r : TaskRequest) (db : Tables)
    → IsValid db
    → IsValid (after db (create_task id now r db))
create_task-IsValid id now r db v = elim (Outcome-cases (create_task id now r db)) [
  | inl ((t, db'), e) ↦
      let (status, priority, parent, left) = create_task-checked id now r db db' t e in
      rw (e, after)
        (rw left (record {
          statuses = All-append _ db.tasks _ v.statuses (status, tt);
          priorities = All-append _ db.tasks _ v.priorities (priority, tt);
          parents =
              All-append _ db.tasks _
                (All-map (HasParent db.tasks) _ db.tasks (find-HasParent-append db.tasks _)
                  v.parents)
                (
                  find-HasParent-append db.tasks _ (task_row id now r)
                      (check_parent-HasParent r.parent_task_id r.workspace_id db parent),
                  tt,
                );
          attempts = v.attempts;
        }))
  | inr (x, e) ↦ rw (e, after) v
]

create_subtask-IsValid :
    (id now p : ℕ) (r : TaskRequest) (db : Tables)
    → IsValid db
    → IsValid (after db (create_subtask id now p r db))
unfolding create_subtask
create_subtask-IsValid id now p r db v = elim (Option-cases (get_task p db)) [
  | inl e ↦ rw (e, create_subtask, after) v
  | inr (q, e) ↦ rw (e, create_subtask, after) (create_task-IsValid id now (for_parent q r) db v)
]

claim_next_task-IsValid :
    (c : ClaimCall) (db : Tables) → IsValid db → IsValid (claim_next_task c db).1
claim_next_task-IsValid c db v = go (claim_next_task c db) (claim_next_task-IsClaim c db)
  where
    go : (r : Option Task × Tables) → IsClaim c db r → IsValid r.1
    go (none, left) (_, same) = rw same v
    go (some row, left) (t, _, _, same) = rw same (
        update-IsValid (has_id t.id) (claimed c.now c.worker_name) db _ (λ u. (refl, refl, refl))
          (λ u h. refl) (λ u h. h)
          (HasDistinctAttempts-snoc db.task_runs _ v.attempts (
            All-map _ _ db.task_runs (λ r older e n. absurd (omega (arith, older e)))
              (next_attempt_number-gt t.id db)))
          v)

update_task_status-IsValid :
    (locked locked_runs : ℕ → Bool) (c : StatusChange) (db : Tables)
    → IsValid db
    → IsValid (after db (update_task_status locked locked_runs c db))
unfolding update_task_status
update_task_status-IsValid locked locked_runs c db v =
    elim (Outcome-cases (validate_status c.status)) [
      | inr (x, e) ↦ rw (e, update_task_status, after) v
      | inl (s, e) ↦ elim (Option-cases (select_for_update locked c.task_id db)) [
        | inl missing ↦ rw (e, missing, update_task_status, after) v
        | inr (t, found) ↦
            rw (e, found, update_task_status, after)
              (update-IsValid (has_id c.task_id) (with_status c.now c.status c.assigned_worker) db _
                (with_status-same c.now c.status c.assigned_worker)
                (λ u h. rw with_status-status (validate_status-ok c.status s e))
                (λ u h. rw with_status-priority h)
                (update_run-HasDistinctAttempts locked_runs c.now c.status c.error_text c.task_id db
                  v.attempts)
                v)
      ]
    ]

reprioritize_task-IsValid :
    (locked : ℕ → Bool) (i : ℕ) (p : String) (db : Tables)
    → IsValid db
    → IsValid (after db (reprioritize_task locked i p db))
unfolding reprioritize_task
reprioritize_task-IsValid locked i p db v = elim (Outcome-cases (validate_priority p)) [
  | inr (x, e) ↦ rw (e, reprioritize_task, after) v
  | inl (s, e) ↦ elim (Option-cases (select_for_update locked i db)) [
    | inl missing ↦ rw (e, missing, reprioritize_task, after) v
    | inr (t, found) ↦
        rw (e, found, reprioritize_task, after)
          (update-IsValid (has_id i) (λ u. record u { priority = p }) db db.task_runs
            (λ u. (refl, refl, refl)) (λ u h. h) (λ u h. validate_priority-ok p s e) v.attempts v)
  ]
]

step-IsValid : (c : Call) (db : Tables) → IsValid db → IsValid (step c db)
unfolding step
step-IsValid (creates id now r) db v = create_task-IsValid id now r db v
step-IsValid (creates_subtask id now p r) db v = create_subtask-IsValid id now p r db v
step-IsValid (claims c) db v = claim_next_task-IsValid c db v
step-IsValid (changes l m c) db v = update_task_status-IsValid l m c db v
step-IsValid (reprioritizes l i p) db v = reprioritize_task-IsValid l i p db v

-- Whatever calls are made, in any order and whether they succeed or raise, every task keeps an
-- allowed status and an allowed priority, every subtask has its parent, in the same workspace, and
-- no two runs of a task have one attempt number.
pub run-IsValid : (calls : List Call) (db : Tables) → IsValid db → IsValid (run calls db)
unfolding run
run-IsValid [] db v = v
run-IsValid (c ∷ cs) db v = run-IsValid cs (step c db) (step-IsValid c db v)
