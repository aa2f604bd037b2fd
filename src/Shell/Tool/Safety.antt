-- ===== src/Shell/Tool/Safety.antt =====
-- The two calls of the shell tool, step by step.
use agent_sam.Prelude.{
  ℕ, String, true, false, some, List, ◌∷◌, ◌≡◌, ◌≢◌, inl, inr, refl, ◌∙◌, sym, not, ◌&&◌, ap, subst,
  arith, find, find_holds, update, contains, ◌==◌, nat_eq, string_eq, Bool-cases, Option-cases, ok,
  >>=-eq-ok, guarded-ok, ok-injective, option_eq,
}
use agent_sam.Database.{Task, has_id}
use agent_sam.Shell.Classify.{RiskAssessment, classify_command}
use agent_sam.Shell.Store.{
  ShellCommandRequest, ToolCall, Store, Host, ShellCommandResult, has_call_id, find_call,
}
use agent_sam.Shell.Tool.{resolve_working_directory, assess_request, process_of, tool_name}
use agent_sam.Shell.Tool.Calls.{
  waiting_statuses, checked_call, get_tool_call, is_tool_call_approved, call_row, submit_assessed,
  submit_command, execute_checked, execute_call, execute_approved_tool_call,
}
use agent_sam.Shell.Tool.Steps.{
  IsAllowed, IsApproved, IsStep, find_call-update-same, resolve_working_directory-none,
  resolve_working_directory-path, write_call-keeps, execute_tool_call-IsStep,
}

module _ (h : Host) where
  find_call-cons :
      (c : ToolCall) (rows : List ToolCall) (j : ℕ)
      → j ≢ c.id
      → find (has_call_id j) (c ∷ rows) ≡ find (has_call_id j) rows
  find_call-cons c rows j n = ground (arith, nat_eq.beq_iff c.id j)

  find_call-head :
      (c : ToolCall) (rows : List ToolCall) → find (has_call_id c.id) (c ∷ rows) ≡ some c
  find_call-head c rows = ground (arith, nat_eq.beq_iff c.id c.id)

  -- The row as it stands when the process of a submitted command is started.
  abbrev submitted : ℕ → ShellCommandRequest → RiskAssessment → ToolCall
  submitted i r a = record (call_row h i r a) { status = "running" }

  submit_assessed-IsStep :
      (i approval_id : ℕ) (r : ShellCommandRequest) (a : RiskAssessment) (t : Task) (s : Store)
      → (a.blocked ≡ false
          → a.requires_approval ≡ false
          → IsAllowed h (process_of h (submitted i r a))
            × IsApproved h s (process_of h (submitted i r a)))
      → IsStep h i s (submit_assessed h approval_id r a t (call_row h i r a) s).1
  unfolding call_row
  submit_assessed-IsStep i approval_id r a t s admits =
      let keep = λ (c : ToolCall) (same : c.id ≡ i) (j : ℕ) (n : j ≢ i).
        find_call-cons c s.tool_calls j (λ e. n (e ∙ same)) in
      elim (Bool-cases a.blocked) [
        | inl b ↦ rw b (keep _ refl, inl refl)
        | inr b ↦ rw b (elim (Bool-cases a.requires_approval) [
          | inl q ↦ rw q (keep _ refl, inl refl)
          | inr q ↦ rw q (
              let (allowed, approved) = admits b q in
              let running = submitted i r a in
              execute_tool_call-IsStep h s running (running ∷ s.tool_calls) i refl
                (find_call-head running s.tool_calls) (keep running refl) allowed approved)
        ])
      ]

  module _ (idempotent : (x : String) → h.resolve (h.resolve x) ≡ h.resolve x) where
    assess_request-admits :
        (i : ℕ) (r : ShellCommandRequest) (s : Store)
        → let a = assess_request h r in
          a.blocked ≡ false
          → a.requires_approval ≡ false
          → IsAllowed h (process_of h (submitted i r a))
            × IsApproved h s (process_of h (submitted i r a))
    unfolding call_row
    assess_request-admits i r s free plain =
        elim (Option-cases (resolve_working_directory h r.working_directory).1) [
          | inr (error, f) ↦ let bad : true ≡ false = rw f at free in cc
          | inl f ↦
              let free' : (classify_command h.search r.command).blocked ≡ false = rw f at free in
              let plain' : (classify_command h.search r.command).requires_approval ≡ false =
                rw f at plain in
              let (dir, root) = resolve_working_directory-none h r.working_directory f in
              let path =
                ap h.resolve (resolve_working_directory-path h r.working_directory)
                ∙ idempotent r.working_directory in
              (
                (free', rw path dir, rw path root),
                λ q. let bad : true ≡ false = sym q ∙ plain' in cc,
              )
        ]

    pub submit_command-IsStep :
        (i approval_id : ℕ) (r : ShellCommandRequest) (s s' : Store) (result : ShellCommandResult)
        → submit_command h i approval_id r s ≡ ok (result, s')
        → IsStep h i s s'
    unfolding submit_command
    submit_command-IsStep i approval_id r s s' result e =
        let a = assess_request h r in
        elim (Option-cases (find (has_id r.task_id) s.tasks)) [
          | inl f ↦ let bad = rw f at e in cc
          | inr (t, f) ↦
              let done : ok (submit_assessed h approval_id r a t (call_row h i r a) s)
                  ≡ ok (result, s') =
                rw f at e in
              subst (λ pair. IsStep h i s pair.1) (ok-injective _ _ done)
                (submit_assessed-IsStep i approval_id r a t s (assess_request-admits i r s))
        ]

  execute_checked-IsStep :
      (c : ToolCall) (s : Store)
      → find_call c.id s ≡ some c
      → let a = classify_command h.search c.input_payload.command in
        IsStep h c.id s
          (execute_checked h c a
            (resolve_working_directory h c.input_payload.working_directory).1
            s).1
  execute_checked-IsStep c s found =
      let a = classify_command h.search c.input_payload.command in
      let wd = c.input_payload.working_directory in
      let write = λ (c' : ToolCall) (same : c'.id ≡ c.id).
        write_call-keeps h s c' s.tool_calls c.id same (λ j n. refl) in
      elim (Option-cases (resolve_working_directory h wd).1) [
        | inr (error, f) ↦ rw f (write _ refl, inl refl)
        | inl f ↦ rw f (elim (Bool-cases a.blocked) [
          | inl b ↦ rw b (write _ refl, inl refl)
          | inr b ↦
              rw b (elim (Bool-cases (a.requires_approval && not (is_tool_call_approved c s))) [
                | inl q ↦ rw q (write _ refl, inl refl)
                | inr q ↦ rw q (
                    let running = record c { status = "running"; risk_level = a.risk_level } in
                    let (dir, root) = resolve_working_directory-none h wd f in
                    execute_tool_call-IsStep h s running
                      (update (has_call_id c.id) (λ _. running) s.tool_calls) c.id refl
                      (find_call-update-same running c s.tool_calls found) (write running refl)
                      (b, dir, root) (λ need. (c, found, ground arith)))
              ])
        ])
      ]

  execute_call-IsStep :
      (c : ToolCall) (s : Store)
      → find_call c.id s ≡ some c
      → IsStep h c.id s (execute_call h c s).1
  execute_call-IsStep c s found = elim (Bool-cases (contains waiting_statuses c.status)) [
    | inl w ↦ rw w (execute_checked-IsStep c s found)
    | inr w ↦ rw w (λ j n. refl, inl refl)
  ]

  pub get_tool_call-find :
      (i : ℕ) (s : Store) (c : ToolCall)
      → get_tool_call i s ≡ ok c
      → (find_call i s ≡ some c) × (c.id ≡ i)
  get_tool_call-find i s c got = elim (Option-cases (find_call i s)) [
    | inl f ↦ let bad = rw f at got in cc
    | inr (d, f) ↦
        let stored : checked_call (some d) ≡ ok c = rw f at got in
        let same : d ≡ c =
          ok-injective _ _ (guarded-ok (d.tool_name == tool_name) (ok d) _ stored).1 in
        (
          f ∙ ap some same,
          (nat_eq.beq_iff c.id i).0 (find_holds (has_call_id i) s.tool_calls c (f ∙ ap some same)),
        )
  ]

  -- Executing a call changes the row of no other call. It starts nothing, or one process of this
  -- call: then the command is not blocked, the directory lies in the allowed roots, a command that
  -- needs an approval has one, and the call is over: completed with the exit code 0, failed with
  -- another exit code, or timed out.
  pub execute_approved_tool_call-IsStep :
      (i : ℕ) (s s' : Store) (result : ShellCommandResult)
      → execute_approved_tool_call h i s ≡ ok (result, s')
      → IsStep h i s s'
  unfolding execute_approved_tool_call
  execute_approved_tool_call-IsStep i s s' result e =
      let (c, got, done) = >>=-eq-ok (get_tool_call i s) (λ c. ok (execute_call h c s)) e in
      let (found, same) = get_tool_call-find i s c got in
      subst (λ j. IsStep h j s s') same
        (subst (λ pair. IsStep h c.id s pair.1) (ok-injective _ _ done)
          (execute_call-IsStep c s (subst (λ j. find_call j s ≡ some c) (sym same) found)))
