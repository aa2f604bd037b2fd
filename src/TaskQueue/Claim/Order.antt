-- ===== src/TaskQueue/Claim/Order.antt =====
-- Which task `claim_next_task` takes.
use agent_sam.Prelude.{
  ℕ, Bool, true, false, not, ◌&&◌, Option, none, some, ◌≡◌, refl, inl, inr, arith, Option-cases,
  All, In, All-map, All-of_select, select-In, contains, select, order_by, order_by-In,
  order_by-All_inv, order_by-IsOrdered, head?-select-order, head?-select-none, head?-In, string_eq,
  nat_eq, option_eq,
}
use agent_sam.Database.{Task, Tables}
use agent_sam.TaskQueue.Rules.{pending_task_statuses, queue_before, in_workspace}
use agent_sam.TaskQueue.Rules.Order.{queue_before-IsOrder, queue_before_refl}
use agent_sam.TaskQueue.Claim.{ClaimCall, claimed, claim_row, next_pending, claim_next_task}

-- A pending task of the workspace that no other transaction holds.
abbrev pub is_claimable : (ℕ → Bool) → Option ℕ → Task → Bool
is_claimable locked workspace_id t =
    (contains pending_task_statuses t.status && in_workspace workspace_id t) && not (locked t.id)

module _ (locked : ℕ → Bool) (workspace_id : Option ℕ) (db : Tables) where
  abbrev pub IsFirst : Task → Type 0
  IsFirst t =
      In t db.tasks
      × (is_claimable locked workspace_id t ≡ true)
      × All (λ u. is_claimable locked workspace_id u ≡ true → queue_before t u ≡ true) db.tasks

  abbrev is_pending : Task → Bool
  is_pending t = contains pending_task_statuses t.status && in_workspace workspace_id t

  abbrev is_free : Task → Bool
  is_free t = not (locked t.id)

  pub next_pending-IsFirst : (t : Task) → next_pending locked workspace_id db ≡ some t → IsFirst t
  unfolding next_pending
  next_pending-IsFirst t h =
      let rows = select is_pending db.tasks in
      let (listed, free) = select-In is_free (order_by queue_before rows) t (head?-In _ t h) in
      let (stored, pending) =
        select-In is_pending db.tasks t (order_by-In queue_before rows t listed) in
      let ahead =
        head?-select-order queue_before queue_before-IsOrder queue_before_refl is_free _ t
          (order_by-IsOrdered queue_before queue_before-IsOrder rows) h in
      (
        stored,
        rw pending free,
        All-map _ _ db.tasks (λ u f both. f (ground arith) (ground arith))
            (All-of_select _ is_pending db.tasks (order_by-All_inv queue_before _ rows ahead)),
      )

  pub next_pending-none :
      next_pending locked workspace_id db ≡ none
      → All (λ u. is_claimable locked workspace_id u ≡ false) db.tasks
  unfolding next_pending
  next_pending-none h =
      let rows = select is_pending db.tasks in
      let busy = head?-select-none is_free (order_by queue_before rows) h in
      All-map _ _ db.tasks (λ u f. ground (arith, f))
        (All-of_select _ is_pending db.tasks (order_by-All_inv queue_before _ rows busy))

-- What a call may return: the first claimable row with its tables, or nothing and the old tables.
abbrev pub IsClaim : ClaimCall → Tables → Option Task × Tables → Type 0
IsClaim c db (none, after) =
    All (λ u. is_claimable c.locked c.workspace_id u ≡ false) db.tasks × (after ≡ db)
IsClaim c db (some row, after) =
    (t : Task) × IsFirst c.locked c.workspace_id db t
    × (row ≡ claimed c.now c.worker_name t)
    × (after ≡ claim_row c.run_id c.now c.worker_name t db)

-- `claim_next_task` takes a pending, unlocked task of the workspace before which no other such task
-- stands in the order of the queue; it returns no task only if there is none, and then changes
-- nothing.
pub claim_next_task-IsClaim : (c : ClaimCall) (db : Tables) → IsClaim c db (claim_next_task c db)
unfolding claim_next_task
claim_next_task-IsClaim c db = elim (Option-cases (next_pending c.locked c.workspace_id db)) [
  | inl e ↦ rw (e, claim_next_task) (next_pending-none c.locked c.workspace_id db e, refl)
  | inr (t, e) ↦
      rw (e, claim_next_task) (t, next_pending-IsFirst c.locked c.workspace_id db t e, refl, refl)
]
