-- ===== src/TaskQueue/Claim/Exclusive.antt =====
-- Two claims, one after the other.
use agent_sam.Prelude.{
  ℕ, String, Bool, true, Option, some, List, [], ◌∷◌, ◌≡◌, ◌≢◌, arith, subst, In, contains, update,
  nat_eq, string_eq, option_eq,
}
use agent_sam.Database.{Task, Tables, has_id}
use agent_sam.TaskQueue.Rules.{pending_task_statuses}
use agent_sam.TaskQueue.Claim.{ClaimCall, claimed, claim_next_task}
use agent_sam.TaskQueue.Claim.Order.{IsClaim, claim_next_task-IsClaim, is_claimable}

update-claimed-running :
    (t : Task) (now : ℕ) (worker : String) (rows : List Task) (u : Task)
    → In u (update (has_id t.id) (claimed now worker) rows)
    → u.id ≡ t.id
    → u.status ≡ "running"
update-claimed-running t now worker [] u m e = absurd m
update-claimed-running t now worker (x ∷ xs) u m e =
    ground (arith, update-claimed-running t now worker xs u, nat_eq.beq_iff x.id t.id)

not-claimable_running :
    (locked : ℕ → Bool) (workspace_id : Option ℕ) (t : Task)
    → t.status ≡ "running"
    → is_claimable locked workspace_id t ≢ true
not-claimable_running locked workspace_id t e h =
    let pending : contains pending_task_statuses t.status ≡ true = ground arith in
    let bad : contains pending_task_statuses "running" ≡ true =
      subst (λ s. contains pending_task_statuses s ≡ true) e pending in
    cc

-- A task that one worker claimed is not given to another one: a second claim on the tables that the
-- first left returns another task, whatever its locks and its workspace.
pub claim_next_task_exclusive :
    (c d : ClaimCall) (db after later : Tables) (t u : Task)
    → claim_next_task c db ≡ (some t, after)
    → claim_next_task d after ≡ (some u, later)
    → u.id ≢ t.id
claim_next_task_exclusive c d db after later t u h k same =
    let (t', _, row, left) = subst (IsClaim c db) h (claim_next_task-IsClaim c db) in
    let (u', (stored, claimable, _), row', _) =
      subst (IsClaim d after) k (claim_next_task-IsClaim d after) in
    let running : u'.status ≡ "running" =
      update-claimed-running t' c.now c.worker_name db.tasks u'
        (subst (λ a. In u' a.tasks) left stored) (ground (arith, row, row')) in
    not-claimable_running d.locked d.workspace_id u' running claimable
