-- ===== src/Shell/Tool/Once.antt =====
-- The stores that the shell tool reaches, and the processes that it has started.
use agent_sam.Prelude.{
  ℕ, String, true, false, none, some, List, [], ◌∷◌, ◌≡◌, ◌≢◌, inl, inr, sym, subst, contains, All,
  nat_eq, string_eq, ok, ◌∙◌, ap, >>=-eq-ok, ok-injective, Bool-cases, some-injective, option_eq,
}
use agent_sam.Database.{Task}
use agent_sam.Shell.Store.{
  ShellCommandRequest, Approval, Process, Store, Host, ShellCommandResult, find_call,
}
use agent_sam.Shell.Tool.{to_result}
use agent_sam.Shell.Tool.Calls.{
  waiting_statuses, get_tool_call, execute_call, submit_command, execute_approved_tool_call,
}
use agent_sam.Shell.Tool.Steps.{IsAllowed, IsSpent, IsStep, Keeps, IsOver-not_waiting}
use agent_sam.Shell.Tool.Safety.{
  get_tool_call-find, submit_command-IsStep, execute_approved_tool_call-IsStep,
}

-- The stores that the calls of the tool reach, from one without calls. Approvals are decided, and
-- tasks change, outside the tool; a new call gets a key that no call has.
pub data IsReachable (h : Host) : Store → Type 0 where
  started :
      (tasks : List Task) (approvals : List Approval)
      → IsReachable h
          (record { tasks = tasks; tool_calls = []; approvals = approvals; spawned = [] })
  decided :
      (s : Store) (tasks : List Task) (approvals : List Approval)
      → IsReachable h s
      → IsReachable h (record s { tasks = tasks; approvals = approvals })
  submitted_command :
      (i approval_id : ℕ) (r : ShellCommandRequest) (s s' : Store) (result : ShellCommandResult)
      → IsReachable h s
      → find_call i s ≡ none
      → submit_command h i approval_id r s ≡ ok (result, s')
      → IsReachable h s'
  executed_call :
      (i : ℕ) (s s' : Store) (result : ShellCommandResult)
      → IsReachable h s
      → execute_approved_tool_call h i s ≡ ok (result, s')
      → IsReachable h s'

-- No two processes belong to one call.
abbrev pub IsOnce : List Process → Type 0
IsOnce [] = Unit
IsOnce (p ∷ ps) = All (λ q. q.tool_call_id ≢ p.tool_call_id) ps × IsOnce ps

module _ (h : Host) where
  -- Every started process is allowed and belongs to a call that is over; none shares its call.
  abbrev pub IsSafe : Store → Type 0
  IsSafe s = All (λ p. IsAllowed h p × IsSpent h s p.tool_call_id) s.spawned × IsOnce s.spawned

  -- A call that is not over has started no process.
  IsSpent-other :
      (s : Store) (i : ℕ)
      → (IsSpent h s i → ⊥)
      → (ps : List Process) → All (λ p. IsAllowed h p × IsSpent h s p.tool_call_id) ps
      → All (λ p. p.tool_call_id ≢ i) ps
  IsSpent-other s i fresh [] safe = tt
  IsSpent-other s i fresh (p ∷ ps) safe =
      (λ e. fresh (subst (λ j. IsSpent h s j) e safe.0.1), IsSpent-other s i fresh ps safe.1)

  All-kept :
      (i : ℕ) (s s' : Store)
      → Keeps h i s s'
      → (ps : List Process) → All (λ p. p.tool_call_id ≢ i) ps
      → All (λ p. IsAllowed h p × IsSpent h s p.tool_call_id) ps
      → All (λ p. IsAllowed h p × IsSpent h s' p.tool_call_id) ps
  All-kept i s s' keep [] others safe = tt
  All-kept i s s' keep (p ∷ ps) others safe =
      let (c, found, over) = safe.0.1 in
      (
        (safe.0.0, (c, keep p.tool_call_id others.0 ∙ found, over)),
        All-kept i s s' keep ps others.1 safe.1,
      )

  IsStep-IsSafe :
      (i : ℕ) (s s' : Store) → (IsSpent h s i → ⊥) → IsStep h i s s' → IsSafe s → IsSafe s'
  IsStep-IsSafe i s s' fresh (keep, moved) (safe, once) =
      let others = IsSpent-other s i fresh s.spawned safe in
      let kept = All-kept i s s' keep s.spawned others safe in
      elim moved [
        | inl e ↦
            subst (λ ps. All (λ p. IsAllowed h p × IsSpent h s' p.tool_call_id) ps × IsOnce ps)
              (sym e) (kept, once)
        | inr (p, e, same, allowed, approved, spent) ↦
            subst (λ ps. All (λ p. IsAllowed h p × IsSpent h s' p.tool_call_id) ps × IsOnce ps)
              (sym e) (((allowed, rw same spent), kept), (rw same others, once))
      ]

  executed_call-IsSafe :
      (i : ℕ) (s s' : Store) (result : ShellCommandResult)
      → execute_approved_tool_call h i s ≡ ok (result, s')
      → IsSafe s
      → IsSafe s'
  unfolding execute_approved_tool_call
  executed_call-IsSafe i s s' result e safe =
      let (c, got, done) = >>=-eq-ok (get_tool_call i s) (λ c. ok (execute_call h c s)) e in
      let (found, same) = get_tool_call-find h i s c got in
      elim (Bool-cases (contains waiting_statuses c.status)) [
        | inl w ↦
            IsStep-IsSafe i s s'
              (λ spent.
                let bad : some spent.0 ≡ some c = sym spent.1 ∙ found in
                let no : true ≡ false =
                  sym w
                  ∙ subst (λ d. contains waiting_statuses d.status ≡ false) (some-injective _ _ bad)
                      (IsOver-not_waiting spent.0 spent.2) in
                cc)
              (execute_approved_tool_call-IsStep h i s s' result e) safe
        | inr w ↦
            let kept : ok (to_result none c, s) ≡ ok (result, s') = rw w at done in
            subst IsSafe (ap (λ pair. pair.1) (ok-injective _ _ kept)) safe
      ]

  module _ (idempotent : (x : String) → h.resolve (h.resolve x) ≡ h.resolve x) where
    -- Whatever calls are submitted and executed, in any order and any number of times, and whatever
    -- is decided in between: every process that was started has a command that the rules do not
    -- block and a directory in the allowed roots, and is the only one of its call. That call is over:
    -- completed with the exit code 0, failed with another exit code, or timed out. Resolving a path
    -- twice is to change nothing.
    pub IsReachable-IsSafe : (s : Store) → IsReachable h s → IsSafe s
    IsReachable-IsSafe _ (started tasks approvals) = (tt, tt)
    IsReachable-IsSafe _ (decided s0 tasks approvals r) = IsReachable-IsSafe s0 r
    IsReachable-IsSafe _ (submitted_command i approval_id request s0 s result r fresh e) =
        IsStep-IsSafe i s0 s (λ spent. let bad = sym fresh ∙ spent.1 in cc)
          (submit_command-IsStep h idempotent i approval_id request s0 s result e)
          (IsReachable-IsSafe s0 r)
    IsReachable-IsSafe _ (executed_call i s0 s result r e) =
        executed_call-IsSafe i s0 s result e (IsReachable-IsSafe s0 r)
