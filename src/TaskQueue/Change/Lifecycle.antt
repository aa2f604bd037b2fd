-- ===== src/TaskQueue/Change/Lifecycle.antt =====
-- The fields that go with a status.
use agent_sam.Prelude.{
  ℕ, String, Bool, true, false, Option, none, some, List, [], ◌∷◌, ◌≡◌, ◌≢◌, ◌⊎◌, inl, inr, arith,
  refl, sym, contains, ok, string_eq, subst, >>=-eq-ok, update, find, nat_eq, option_eq,
}
use agent_sam.Database.{Task, Tables, has_id, get_task}
use agent_sam.TaskQueue.Rules.{terminal_task_statuses, allowed_task_statuses, validate_status}
use agent_sam.TaskQueue.Rules.Checks.{validate_status-ok}
use agent_sam.TaskQueue.Change.{
  write_status, finish_change, StatusChange, with_status, select_for_update, update_task_status,
}

pub with_status-status :
    (now : ℕ) (status : String) (worker : Option String) (t : Task)
    → (with_status now status worker t).status ≡ status
unfolding with_status
with_status-status now status worker t = ground arith

pub with_status-same :
    (now : ℕ) (status : String) (worker : Option String) (t : Task)
    → ((with_status now status worker t).id ≡ t.id)
      × ((with_status now status worker t).workspace_id ≡ t.workspace_id)
      × ((with_status now status worker t).parent_task_id ≡ t.parent_task_id)
unfolding with_status
with_status-same now status worker t = (ground arith, ground arith, ground arith)

pub with_status-priority :
    (now : ℕ) (status : String) (worker : Option String) (t : Task)
    → (with_status now status worker t).priority ≡ t.priority
unfolding with_status
with_status-priority now status worker t = ground arith

pub terminal_cases :
    (s : String)
    → contains terminal_task_statuses s ≡ true
    → (s ≡ "completed") ⊎ ((s ≡ "failed") ⊎ (s ≡ "cancelled"))
terminal_cases s h = ground (
  arith,
  string_eq.beq_iff s "completed",
  string_eq.beq_iff s "failed",
  string_eq.beq_iff s "cancelled",
)

-- What each class of statuses asks of the row `new` that takes the place of `old`.
pub record HasLifecycle (now : ℕ) (status : String) (old new : Task) : Type 0 where
  pub status_set : new.status ≡ status
  pub running : status ≡ "running" → (new.started_at ≢ none) × (new.completed_at ≡ none)
  pub waiting :
      (status ≡ "pending") ⊎ (status ≡ "paused")
      → (new.assigned_worker ≡ none) × (new.completed_at ≡ none) × (new.started_at ≡ old.started_at)
  pub ended :
      contains terminal_task_statuses status ≡ true
      → (new.assigned_worker ≡ none)
        × (new.completed_at ≡ some now)
        × (new.started_at ≡ old.started_at)

module _ (now : ℕ) (worker : Option String) (t : Task) where
  abbrev Ends : String → Type 0
  Ends s =
      ((with_status now s worker t).assigned_worker ≡ none)
      × ((with_status now s worker t).completed_at ≡ some now)
      × ((with_status now s worker t).started_at ≡ t.started_at)

  abbrev Waits : String → Type 0
  Waits s =
      ((with_status now s worker t).assigned_worker ≡ none)
      × ((with_status now s worker t).completed_at ≡ none)
      × ((with_status now s worker t).started_at ≡ t.started_at)

  abbrev Runs : String → Type 0
  Runs s =
      ((with_status now s worker t).started_at ≢ none)
      × ((with_status now s worker t).completed_at ≡ none)

  pub with_status-HasLifecycle :
      (status : String) → HasLifecycle now status t (with_status now status worker t)
  unfolding with_status
  with_status-HasLifecycle status = record {
    status_set = with_status-status now status worker t;
    running = λ e. subst Runs (sym e) ((λ n. ground arith), refl);
    waiting = λ c. elim c [
      | inl e ↦ subst Waits (sym e) (refl, refl, refl)
      | inr e ↦ subst Waits (sym e) (refl, refl, refl)
    ];
    ended = λ h. elim (terminal_cases status h) [
      | inl e ↦ subst Ends (sym e) (refl, refl, refl)
      | inr (inl e) ↦ subst Ends (sym e) (refl, refl, refl)
      | inr (inr e) ↦ subst Ends (sym e) (refl, refl, refl)
    ];
  }

find-update_self :
    (i : ℕ) (f : Task → Task)
    → ((t : Task) → (f t).id ≡ t.id)
    → (rows : List Task) (t : Task) → find (has_id i) rows ≡ some t
    → find (has_id i) (update (has_id i) f rows) ≡ some (f t)
find-update_self i f same [] t h = cc
find-update_self i f same (x ∷ xs) t h = ground (arith, same x, find-update_self i f same xs t)

find-update_other :
    (i j : ℕ) (f : Task → Task)
    → ((t : Task) → (f t).id ≡ t.id)
    → i ≢ j
    → (rows : List Task) → find (has_id j) (update (has_id i) f rows) ≡ find (has_id j) rows
find-update_other i j f same other [] = refl
find-update_other i j f same other (x ∷ xs) =
    ground (arith, same x, find-update_other i j f same other xs)

select_for_update-get_task :
    (locked : ℕ → Bool) (i : ℕ) (db : Tables) (t : Task)
    → select_for_update locked i db ≡ some t
    → get_task i db ≡ some t
select_for_update-get_task locked i db t h = ground arith

-- A successful status change, read back.
finish_change-written :
    (locked_runs : ℕ → Bool) (c : StatusChange) (db after : Tables) (o : Option Task) (t : Task)
    → finish_change locked_runs c db o ≡ ok (some t, after)
    → (old : Task) × (o ≡ some old)
      × (t ≡ with_status c.now c.status c.assigned_worker old)
      × (after ≡ write_status locked_runs c db)
finish_change-written locked_runs c db after none t h = cc
finish_change-written locked_runs c db after (some old) t h = (old, refl, cc, cc)

pub update_task_status-HasLifecycle :
    (locked locked_runs : ℕ → Bool) (c : StatusChange) (db after : Tables) (t : Task)
    → update_task_status locked locked_runs c db ≡ ok (some t, after)
    → (old : Task) × (get_task c.task_id db ≡ some old)
      × HasLifecycle c.now c.status old t
      × (contains allowed_task_statuses c.status ≡ true)
      × (get_task c.task_id after ≡ some t)
      × ((j : ℕ) → c.task_id ≢ j → get_task j after ≡ get_task j db)
unfolding update_task_status
update_task_status-HasLifecycle locked locked_runs c db after t h =
    let (s, valid, rest) = >>=-eq-ok (validate_status c.status) _ h in
    let (old, picked, row, left) = finish_change-written locked_runs c db after _ t rest in
    let found = select_for_update-get_task locked c.task_id db old picked in
    let change = with_status c.now c.status c.assigned_worker in
    let same = λ (u : Task). (with_status-same c.now c.status c.assigned_worker u).0 in
    (
      old,
      found,
      subst (HasLifecycle c.now c.status old) (sym row)
          (with_status-HasLifecycle c.now c.assigned_worker old c.status),
      validate_status-ok c.status s valid,
      rw (left, row) (find-update_self c.task_id change same db.tasks old found),
      λ j other. rw left (find-update_other c.task_id j change same other db.tasks),
    )

-- An allowed status is written to a row that is there and that nobody else holds.
pub update_task_status-succeeds :
    (locked locked_runs : ℕ → Bool) (c : StatusChange) (db : Tables) (old : Task)
    → contains allowed_task_statuses c.status ≡ true
    → locked c.task_id ≡ false
    → get_task c.task_id db ≡ some old
    → update_task_status locked locked_runs c db
      ≡ ok (some (with_status c.now c.status c.assigned_worker old), write_status locked_runs c db)
unfolding update_task_status validate_status
update_task_status-succeeds locked locked_runs c db old allowed free found =
    rw (allowed, free, found) refl
