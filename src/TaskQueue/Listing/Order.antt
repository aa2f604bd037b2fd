-- ===== src/TaskQueue/Listing/Order.antt =====
-- What `list_task_queue` returns.
use agent_sam.Prelude.{
  ℕ, ◌≤◌, String, Bool, true, ◌&&◌, Option, List, ◌≡◌, ◌⊎◌, All, In, All-intro, All-take, select-In,
  In-select, contains, select, take, length, length-take_le, order_by-All, order_by-IsOrdered,
  In-order_by, IsOrdered, IsOrdered-take, In-take, ok, >>=-eq-ok, string_eq, nat_eq, subst,
  option_eq,
}
use agent_sam.Database.{Task, Tables}
use agent_sam.TaskQueue.Rules.{queue_before, in_workspace}
use agent_sam.TaskQueue.Rules.Order.{queue_before-IsOrder}
use agent_sam.TaskQueue.Listing.{queue_rows, list_task_queue, validate_statuses}

abbrev is_listed : Option ℕ → List String → Task → Bool
is_listed workspace_id statuses t = contains statuses t.status && in_workspace workspace_id t

-- The rows of a listing: at most `limit` tasks of the workspace and the statuses, in the order of
-- the queue. Every such task is listed, unless the listing is full and all of it comes before.
pub record IsListing (workspace_id : Option ℕ) (statuses : List String) (limit : ℕ) (db : Tables)
    (rows : List Task) : Type 0 where
  pub short : length rows ≤ limit
  pub ordered : IsOrdered queue_before rows
  pub sound : All (λ t. In t db.tasks × (is_listed workspace_id statuses t ≡ true)) rows
  pub complete :
      All
        (λ t.
          is_listed workspace_id statuses t ≡ true
          → In t rows ⊎ ((length rows ≡ limit) × All (λ r. queue_before r t ≡ true) rows))
        db.tasks

take-queue_rows-IsListing :
    (workspace_id : Option ℕ) (statuses : List String) (limit : ℕ) (db : Tables)
    → IsListing workspace_id statuses limit db (take limit (queue_rows workspace_id statuses db))
take-queue_rows-IsListing w ss limit db =
    let p = is_listed w ss in
    let rows = select p db.tasks in
    let sorted = order_by-IsOrdered queue_before queue_before-IsOrder rows in
    record {
      short = length-take_le limit _;
      ordered = IsOrdered-take queue_before limit _ sorted;
      sound =
          All-take _ limit _
            (order_by-All queue_before _ rows (All-intro _ rows (λ t. select-In p db.tasks t)));
      complete = All-intro _ db.tasks λ t m h.
          In-take queue_before limit _ t sorted
            (In-order_by queue_before rows t (In-select p db.tasks t m h));
    }

-- A listing that succeeds is sound, complete up to its limit, and in the order of the queue.
pub list_task_queue-IsListing :
    (workspace_id : Option ℕ) (statuses : List String) (limit : ℕ) (db : Tables) (rows : List Task)
    → list_task_queue workspace_id statuses limit db ≡ ok rows
    → IsListing workspace_id statuses limit db rows
unfolding list_task_queue
list_task_queue-IsListing w ss limit db rows h =
    let (_, _, e) = >>=-eq-ok (validate_statuses ss) _ h in
    let same : take limit (queue_rows w ss db) ≡ rows = cc in
    subst (IsListing w ss limit db) same (take-queue_rows-IsListing w ss limit db)
