-- ===== src/TaskQueue/Attempts.antt =====
-- The attempt numbers of a task's runs, which the constraint `uq_task_runs_task_attempt` of
-- db/models.py wants distinct.
use agent_sam.Prelude.{
  ℕ, String, Bool, Option, List, [], ◌∷◌, ◌++◌, ◌≡◌, ◌≢◌, ◌≤◌, ◌+◌, inl, inr, arith, Option-cases,
  All, All-map, All-append, All-update, update, refl, sym, ◌∙◌, nat_eq, Bool-cases, string_eq,
  option_eq,
}
use agent_sam.Database.{TaskRun, Tables}
use agent_sam.TaskQueue.Claim.{max_attempt_number, next_attempt_number}
use agent_sam.TaskQueue.Change.{run_with_status, latest_task_run, update_run}

max_attempt_number-le :
    (task_id : ℕ) (runs : List TaskRun)
    → All (λ r. r.task_id ≡ task_id → r.attempt_number ≤ max_attempt_number task_id runs) runs
unfolding max_attempt_number
max_attempt_number-le task_id [] = tt
max_attempt_number-le task_id (r ∷ rs) = (
  λ e. ground (arith, (nat_eq.beq_iff r.task_id task_id).1 e),
  All-map _ _ rs (λ s h e. omega (arith, h e)) (max_attempt_number-le task_id rs),
)

-- The number of the next run exceeds those of all runs of the task.
pub next_attempt_number-gt :
    (task_id : ℕ) (db : Tables)
    → All
        (λ r. r.task_id ≡ task_id → r.attempt_number + 1 ≤ next_attempt_number task_id db)
        db.task_runs
unfolding next_attempt_number
next_attempt_number-gt task_id db =
    All-map _ _ db.task_runs (λ s h e. omega (arith, h e))
      (max_attempt_number-le task_id db.task_runs)

abbrev Differs : TaskRun → TaskRun → Type 0
Differs r s = r.task_id ≡ s.task_id → r.attempt_number ≢ s.attempt_number

abbrev pub HasDistinctAttempts : List TaskRun → Type 0
HasDistinctAttempts [] = Unit
HasDistinctAttempts (r ∷ rs) = All (Differs r) rs × HasDistinctAttempts rs

pub HasDistinctAttempts-snoc :
    (runs : List TaskRun) (s : TaskRun)
    → HasDistinctAttempts runs
    → All (λ r. Differs r s) runs
    → HasDistinctAttempts (runs ++ s ∷ [])
HasDistinctAttempts-snoc [] s h k = (tt, tt)
HasDistinctAttempts-snoc (r ∷ rs) s h k =
    (All-append (Differs r) rs (s ∷ []) h.0 (k.0, tt), HasDistinctAttempts-snoc rs s h.1 k.1)

module _ (f : TaskRun → TaskRun)
    (same : (r : TaskRun)
      → ((f r).task_id ≡ r.task_id) × ((f r).attempt_number ≡ r.attempt_number)) where
  HasDistinctAttempts-update :
      (p : TaskRun → Bool) (runs : List TaskRun)
      → HasDistinctAttempts runs
      → HasDistinctAttempts (update p f runs)
  HasDistinctAttempts-update p [] h = tt
  HasDistinctAttempts-update p (r ∷ rs) h =
      let kept =
        All-update (Differs r) p f rs (λ x d e n. d (e ∙ (same x).0) (n ∙ (same x).1)) h.0 in
      elim (Bool-cases (p r)) [
        | inl e ↦ rw e (
          All-map (Differs r) (Differs (f r)) _
              (λ x d e' n. d (sym (same r).0 ∙ e') (sym (same r).1 ∙ n)) kept,
          HasDistinctAttempts-update p rs h.1,
        )
        | inr e ↦ rw e (kept, HasDistinctAttempts-update p rs h.1)
      ]

pub update_run-HasDistinctAttempts :
    (locked_runs : ℕ → Bool) (now : ℕ) (status : String) (error_text : Option String)
    → (task_id : ℕ) (db : Tables) → HasDistinctAttempts db.task_runs
    → HasDistinctAttempts (update_run locked_runs now status error_text task_id db)
unfolding update_run run_with_status
update_run-HasDistinctAttempts locked_runs now status error_text task_id db h =
    elim (Option-cases (latest_task_run locked_runs task_id db)) [
      | inl e ↦ rw (e, update_run) h
      | inr (r, e) ↦
          rw (e, update_run)
            (HasDistinctAttempts-update (run_with_status now status error_text) (λ s. (refl, refl))
              _ db.task_runs h)
    ]
