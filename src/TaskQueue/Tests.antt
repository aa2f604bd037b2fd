-- ===== src/TaskQueue/Tests.antt =====
-- Runs of the queue and of the worker on small tables, and the theorems at concrete data.
use agent_sam.Prelude.{
  ℕ, String, Bool, false, none, some, List, [], ◌∷◌, ◌≡◌, ◌≢◌, refl, count, select, nat_eq,
  string_eq, ◌==◌, Json, Fields, order_by, ok, raise, value_error, option_eq,
}
use agent_sam.Database.{Task, Tables}
use agent_sam.TaskQueue.Rules.{
  in_workspace, priority_ordering, queue_before, validate_status, validate_priority,
}
use agent_sam.TaskQueue.Create.{TaskRequest, create_task, create_subtask}
use agent_sam.TaskQueue.Listing.{list_task_queue, get_queue_status}
use agent_sam.TaskQueue.Listing.Order.{IsListing, list_task_queue-IsListing}
use agent_sam.TaskQueue.Listing.Counts.{sum_groups, get_queue_status_counts}
use agent_sam.TaskQueue.Claim.{ClaimCall, claimed, claim_row, claim_next_task}
use agent_sam.TaskQueue.Claim.Order.{IsClaim, claim_next_task-IsClaim}
use agent_sam.TaskQueue.Claim.Exclusive.{claim_next_task_exclusive}
use agent_sam.TaskQueue.Change.{StatusChange, change, with_status, update_task_status}
use agent_sam.TaskQueue.Validity.{Call, creates, claims, changes, run, IsValid, run-IsValid}
use agent_sam.Worker.{returned, Round, worker_round}
use agent_sam.Worker.Closing.{IsClosed, worker_round-IsClosed}

abbrev task : ℕ → ℕ → String → Task
task id created priority = record {
  id = id;
  created_at = created;
  workspace_id = 7;
  created_by_user_id = none;
  parent_task_id = none;
  title = "t";
  description = none;
  priority = priority;
  status = "pending";
  assigned_worker = none;
  metadata_json = Json.obj Fields.end;
  started_at = none;
  completed_at = none;
}

abbrev tables : Tables
tables = record {
  tasks = task 1 10 "low" ∷ task 2 11 "urgent" ∷ task 3 9 "urgent" ∷ [];
  task_runs = [];
}

abbrev open_to_all : ℕ → Bool
open_to_all i = false

abbrev claim : ℕ → ClaimCall
claim run_id = record {
  locked = open_to_all;
  run_id = run_id;
  now = 20;
  worker_name = "worker-1";
  workspace_id = none;
}

program : Unit {0}
unfolding order_by queue_before priority_ordering with_status claim_next_task create_task
    create_subtask list_task_queue update_task_status validate_status validate_priority
    get_queue_status
program = tt

-- The oldest of the urgent tasks goes first.
claim_first :
    (claim_next_task (claim 50) tables).0 ≡ some (claimed 20 "worker-1" (task 3 9 "urgent"))
unfolding program
claim_first = refl

abbrev after_first : Tables
after_first = claim_row 50 20 "worker-1" (task 3 9 "urgent") tables

abbrev after_second : Tables
after_second = claim_row 51 20 "worker-1" (task 2 11 "urgent") after_first

claim_next_task-IsClaim_example : IsClaim (claim 50) tables (claim_next_task (claim 50) tables)
claim_next_task-IsClaim_example = claim_next_task-IsClaim (claim 50) tables

claim_next_task_exclusive_example : ◌≢◌ {A = ℕ} 2 3
unfolding program
claim_next_task_exclusive_example =
    claim_next_task_exclusive (claim 50) (claim 51) tables after_first after_second
      (claimed 20 "worker-1" (task 3 9 "urgent")) (claimed 20 "worker-1" (task 2 11 "urgent")) refl
      refl

listed :
    list_task_queue (some 7) ("pending" ∷ []) 2 tables
    ≡ ok (task 3 9 "urgent" ∷ task 2 11 "urgent" ∷ [])
unfolding program
listed = refl

list_task_queue-IsListing_example :
    IsListing (some 7) ("pending" ∷ []) 2 tables (task 3 9 "urgent" ∷ task 2 11 "urgent" ∷ [])
list_task_queue-IsListing_example =
    list_task_queue-IsListing (some 7) ("pending" ∷ []) 2 tables
      (task 3 9 "urgent" ∷ task 2 11 "urgent" ∷ []) listed

get_queue_status_counts_example :
    let rows = select (in_workspace (some 7)) after_first.tasks in
    let q = get_queue_status (some 7) after_first in
    (q.pending ≡ count (λ t. t.status == "pending") rows)
    × (q.running ≡ count (λ t. t.status == "running") rows)
    × (q.paused ≡ count (λ t. t.status == "paused") rows)
    × (sum_groups q.by_status ≡ q.total)
    × (sum_groups q.by_priority ≡ q.total)
get_queue_status_counts_example = get_queue_status_counts (some 7) after_first

counted : (get_queue_status none after_first).running ≡ 1
unfolding program
counted = refl

abbrev completion : StatusChange
completion = change 30 3 "completed" none

abbrev completed_3 : Task
completed_3 = record (claimed 20 "worker-1" (task 3 9 "urgent")) {
  status = "completed";
  assigned_worker = none;
  completed_at = some 30;
}

unknown_status :
    update_task_status open_to_all open_to_all (change 30 3 "done" none) after_first
    ≡ raise (value_error "Invalid task status: done")
unfolding program
unknown_status = refl

tables-IsValid : IsValid tables
tables-IsValid = record {
  statuses = (refl, (refl, (refl, tt)));
  priorities = (refl, (refl, (refl, tt)));
  parents = ((λ p e. cc), ((λ p e. cc), ((λ p e. cc), tt)));
  attempts = tt;
}

abbrev subtask : TaskRequest
subtask = record {
  workspace_id = 7;
  title = "s";
  description = none;
  priority = "high";
  status = "pending";
  parent_task_id = some 2;
  assigned_worker = none;
  created_by_user_id = none;
  metadata_json = none;
}

abbrev calls : List Call
calls =
    claims (claim 50)
    ∷ creates 4 21 subtask
    ∷ changes open_to_all open_to_all completion
    ∷ claims (claim 51)
    ∷ []

run-IsValid_example : IsValid (run calls tables)
run-IsValid_example = run-IsValid calls tables tables-IsValid

abbrev round : Round
round = record {
  claim = claim 50;
  handle_task = λ t db. (returned "paused" "waits", db);
  locked = open_to_all;
  locked_runs = open_to_all;
  now = 30;
}

worker_round-IsClosed_example : IsClosed 30 "paused" 3 after_first (worker_round round tables).1
unfolding program
worker_round-IsClosed_example =
    worker_round-IsClosed round tables after_first after_first
      (claimed 20 "worker-1" (task 3 9 "urgent")) (claimed 20 "worker-1" (task 3 9 "urgent"))
      (returned "paused" "waits") refl refl refl refl
