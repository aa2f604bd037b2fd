-- ===== src/Harness/Loop/Safety.antt =====
-- What a run of the harness loop handles, and how it ends.
use agent_sam.Prelude.{
  ℕ, zero, suc, ◌≤◌, String, true, false, ◌&&◌, Option, none, some, List, [], ◌∷◌, ◌++◌, ◌≡◌, ◌⊎◌,
  inl, inr, refl, sym, ap, ◌∙◌, find, length, length-append, append_assoc, All-append, All, head?,
  ◌==◌, nat_eq, string_eq, Bool-cases, Option-cases, arith, Outcome, ok, raise, leb, option_eq,
}
use agent_sam.Database.{Task, has_id}
use agent_sam.Harness.Actions.{
  action_type, Action, message, shell, browser, file_read, file_write, file_patch, search,
  install_library, install_repo, git, github, source_cache, approval, finish,
}
use agent_sam.Harness.Registry.{Event, Observation}
use agent_sam.Harness.Executor.{State, execute_action}
use agent_sam.Harness.Executor.Guard.{permitted, attended, IsGuarded, execute_action-IsGuarded}
use agent_sam.Harness.Loop.{
  ModelResponse, AgentRunResult, HarnessLoop, Turn, stop, go, log, count_error, after_action, act,
  answer, model_response, add_cost, text_or, turn, iterate, greet, run_task,
}

module _ (l : HarnessLoop) where
  -- A result whose run left the redacted summary as its last event.
  abbrev pub IsSummarised : Outcome AgentRunResult × State → Type 0
  IsSummarised (raise e, s) = Unit
  IsSummarised (ok r, s) =
      ((r.status ≡ "completed") ⊎ ((r.status ≡ "paused") ⊎ (r.status ≡ "failed")))
      × (head? s.journal.events
          ≡ some (record {
            event_type = "run_summary";
            content = l.executor.redact_secret_text r.final_summary;
          }))

  -- One after the other, at most `n` actions were handled, and the policies permit each of them
  -- without an approval.
  abbrev pub IsGuardedRun : ℕ → State → State → Type 0
  IsGuardedRun n s s' =
      (handled : List Action) × (s'.handled ≡ handled ++ s.handled)
      × (length handled ≤ n)
      × All (λ a. (permitted l.executor a ≡ true) × (attended l.executor a ≡ false)) handled

  abbrev IsGuardedTurn : State → Turn → Type 0
  IsGuardedTurn s (stop out) = IsGuarded l.executor s out.1 × IsSummarised out
  IsGuardedTurn s (go errors cost s') = IsGuarded l.executor s s'

  count_error-guarded :
      (summary : String) (errors cost : ℕ) (s s0 : State)
      → IsGuarded l.executor s0 s
      → IsGuardedTurn s0 (count_error l summary errors cost s)
  count_error-guarded summary errors cost s s0 g =
      elim (Bool-cases (leb l.agent_loop_max_repeated_errors (suc errors))) [
        | inl e ↦ rw e (g, (inr (inr refl), refl))
        | inr e ↦ rw e g
      ]

  after_action-guarded :
      (errors cost : ℕ) (out : Outcome Observation × State) (s0 : State)
      → IsGuarded l.executor s0 out.1
      → IsGuardedTurn s0 (after_action l errors cost out)
  after_action-guarded errors cost (raise e, s) s0 g = (g, tt)
  after_action-guarded errors cost (ok o, s) s0 g =
      elim (Bool-cases ((o.observation_type == "approval") && (o.status == "pending"))) [
        | inl e ↦ rw e (g, (inr (inl refl), refl))
        | inr e ↦ rw e (elim (Bool-cases (o.observation_type == "error")) [
          | inl f ↦ rw f (count_error-guarded o.error_message errors cost s s0 g)
          | inr f ↦ rw f g
        ])
      ]

  executed-guarded :
      (a : Action) (errors cost : ℕ) (s : State)
      → IsGuardedTurn s (after_action l errors cost (execute_action l.executor a s))
  executed-guarded a errors cost s =
      after_action-guarded errors cost (execute_action l.executor a s) s
        (execute_action-IsGuarded l.executor a s)

  act-guarded : (a : Action) (errors cost : ℕ) (s : State) → IsGuardedTurn s (act l a errors cost s)
  act-guarded (message c) errors cost s = executed-guarded (message c) errors cost s
  act-guarded (shell b) errors cost s = executed-guarded (shell b) errors cost s
  act-guarded (browser b) errors cost s = executed-guarded (browser b) errors cost s
  act-guarded (file_read p) errors cost s = executed-guarded (file_read p) errors cost s
  act-guarded (file_write b) errors cost s = executed-guarded (file_write b) errors cost s
  act-guarded (file_patch b) errors cost s = executed-guarded (file_patch b) errors cost s
  act-guarded (search b) errors cost s = executed-guarded (search b) errors cost s
  act-guarded (install_library b) errors cost s = executed-guarded (install_library b) errors cost s
  act-guarded (install_repo b) errors cost s = executed-guarded (install_repo b) errors cost s
  act-guarded (git b) errors cost s = executed-guarded (git b) errors cost s
  act-guarded (github b) errors cost s = executed-guarded (github b) errors cost s
  act-guarded (source_cache b) errors cost s = executed-guarded (source_cache b) errors cost s
  act-guarded (approval b) errors cost s = executed-guarded (approval b) errors cost s
  act-guarded (finish summary) errors cost s = (inl refl, (inl refl, refl))

  -- Logging an event handles nothing.
  IsGuardedTurn-log :
      (event_type content : String) (s : State) (v : Turn)
      → IsGuardedTurn (log l event_type content s) v
      → IsGuardedTurn s v
  IsGuardedTurn-log event_type content s (stop out) g = g
  IsGuardedTurn-log event_type content s (go errors cost s') g = g

  answer-guarded :
      (response : ModelResponse) (action : Option Action) (errors cost : ℕ) (s : State)
      → IsGuardedTurn s (answer l response action errors cost s)
  answer-guarded response none errors cost s = count_error-guarded _ errors cost _ s (inl refl)
  answer-guarded response (some a) errors cost s = elim (Bool-cases response.success) [
    | inl e ↦ rw e (
        IsGuardedTurn-log "agent_thought" (text_or (some response.content) (action_type a)) s _
          (act-guarded a errors cost _))
    | inr e ↦ rw e (count_error-guarded _ errors cost _ s (inl refl))
  ]

  turn-guarded :
      (task : Task) (iteration errors cost : ℕ) (s : State)
      → IsGuardedTurn s (turn l task iteration errors cost s)
  turn-guarded task iteration errors cost s = elim (Bool-cases (l.runtime_exceeded iteration)) [
    | inl e ↦ rw e (inl refl, (inr (inr refl), refl))
    | inr e ↦
        let response = model_response l task iteration cost s in
        rw e (answer-guarded response response.action errors (add_cost response.actual_cost cost) s)
  ]

  IsGuarded-run : (s s' : State) → IsGuarded l.executor s s' → (n : ℕ) → IsGuardedRun (suc n) s s'
  IsGuarded-run s s' (inl e) n = ([], e, ground arith, tt)
  IsGuarded-run s s' (inr (a, e, p, q)) n = (a ∷ [], e, ground arith, ((p, q), tt))

  IsGuarded-then :
      (n : ℕ) (s s' s2 : State)
      → IsGuarded l.executor s s'
      → IsGuardedRun n s' s2
      → IsGuardedRun (suc n) s s2
  IsGuarded-then n s s' s2 (inl e) (handled, f, few, each) =
      (handled, f ∙ ap (λ h. handled ++ h) e, ground arith, each)
  IsGuarded-then n s s' s2 (inr (a, e, p, q)) (handled, f, few, each) = (
    handled ++ (a ∷ []),
    f ∙ ap (λ h. handled ++ h) e ∙ sym (append_assoc handled (a ∷ []) s.handled),
    omega (arith, length-append handled (a ∷ []), few),
    All-append _ handled (a ∷ []) each ((p, q), tt),
  )

  -- A turn, and the rest of the loop.
  continue-guarded :
      (task : Task) (left iteration : ℕ) (s : State) (v : Turn)
      → IsGuardedTurn s v
      → ((errors cost : ℕ) (s' : State)
          → let out = iterate l task left (suc iteration) errors cost s' in
            IsGuardedRun left s' out.1 × IsSummarised out)
      → let out : Outcome AgentRunResult × State = elim v [
        | stop out ↦ out
        | go errors cost s' ↦ iterate l task left (suc iteration) errors cost s'
      ] in
        IsGuardedRun (suc left) s out.1 × IsSummarised out
  continue-guarded task left iteration s (stop out) g rest = (IsGuarded-run s out.1 g.0 left, g.1)
  continue-guarded task left iteration s (go errors cost s') g rest =
      let (run, summarised) = rest errors cost s' in
      (
        IsGuarded-then left s s' (iterate l task left (suc iteration) errors cost s').1 g run,
        summarised,
      )

  iterate-guarded :
      (task : Task) (left iteration errors cost : ℕ) (s : State)
      → IsGuardedRun left s (iterate l task left iteration errors cost s).1
        × IsSummarised (iterate l task left iteration errors cost s)
  unfolding iterate
  iterate-guarded task zero iteration errors cost s =
      (([], refl, ground arith, tt), (inr (inr refl), refl))
  iterate-guarded task (suc left) iteration errors cost s =
      continue-guarded task left iteration s (turn l task iteration errors cost s)
        (turn-guarded task iteration errors cost s)
        (λ errors' cost' s'. iterate-guarded task left (suc iteration) errors' cost' s')

  greet-guarded :
      (t : Task) (n : ℕ) (events : List Event) (s s' : State)
      → IsGuardedRun n (greet l t events s) s'
      → IsGuardedRun n s s'
  greet-guarded t n [] s s' g = g
  greet-guarded t n (e ∷ events) s s' g = g

  -- A run of the harness loop handles at most as many actions as it has iterations, and only
  -- actions that no policy forbids and that need no approval, whatever the model asks for. If it
  -- returns, its status is completed, paused or failed, and its last event is the summary that it
  -- returns, with the secrets redacted.
  pub run_task-IsGuardedRun :
      (s : State)
      → IsGuardedRun l.agent_loop_max_iterations s (run_task l s).1 × IsSummarised (run_task l s)
  unfolding run_task
  run_task-IsGuardedRun s = elim (Option-cases (find (has_id l.executor.task_id) s.journal.tasks)) [
    | inl e ↦ rw e (([], refl, ground arith, tt), tt)
    | inr (t, e) ↦
        let (run, summarised) =
          iterate-guarded t l.agent_loop_max_iterations 0 0 0 (greet l t s.journal.events s) in
        rw e (
          greet-guarded t l.agent_loop_max_iterations s.journal.events s
              (iterate l t l.agent_loop_max_iterations 0 0 0 (greet l t s.journal.events s)).1 run,
          summarised,
        )
  ]
