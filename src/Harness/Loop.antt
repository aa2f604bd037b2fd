-- ===== src/Harness/Loop.antt =====
-- harness/loop.py: `HarnessLoop`. The model and the clock are arguments: the model answers a request,
-- and `runtime_exceeded` says of an iteration whether the time is over when it begins. Costs are
-- numbers of a smallest unit. The journal is that of the run's task, which is the history that the
-- program reads again before every request.
pub mod Safety
use agent_sam.Prelude.{
  ℕ, zero, suc, ◌+◌, String, ◌<>◌, Bool, true, false, not, ◌&&◌, Option, none, some, List, [], ◌∷◌,
  find, reverse, leb, if◌then◌else◌, ◌==◌, nat_eq, string_eq, strip, Outcome, ok, raise, Exception,
  value_error,
}
use agent_sam.Database.{Task, has_id}
use agent_sam.Harness.Actions.{Action, action_type, finish}
use agent_sam.Harness.Registry.{Event, Observation, append}
use agent_sam.Harness.Executor.{State, Executor, execute_action}

-- What a request to the model tells of the run.
pub record ModelRequest : Type 0 where
  pub task : Task
  pub history : List Event
  pub current_cost : ℕ
  pub iteration : ℕ

pub record ModelResponse : Type 0 where
  pub success : Bool
  pub action : Option Action
  pub content : String
  pub error : Option String
  pub actual_cost : Option ℕ

pub record AgentRunResult : Type 0 where
  pub status : String
  pub final_summary : String
  pub approval_id : Option ℕ

pub record HarnessLoop : Type 0 where
  pub agent_loop_max_iterations : ℕ
  pub agent_loop_max_repeated_errors : ℕ
  pub executor : Executor
  pub next_action : ModelRequest → ModelResponse
  pub runtime_exceeded : ℕ → Bool
  pub initial_user_message : Option String

-- `text or other`
abbrev pub text_or : Option String → String → String
text_or none other = other
text_or (some t) other = if t == "" then other else t

abbrev pub add_cost : Option ℕ → ℕ → ℕ
add_cost none cost = cost
add_cost (some c) cost = cost + c

-- An iteration returns from the loop or goes on, with the errors in a row and the cost so far.
pub data Turn : Type 0 where
  stop : Outcome AgentRunResult × State → Turn
  go : (repeated_errors current_cost : ℕ) → State → Turn

abbrev pub late : String
late = "Harness loop exceeded runtime limit."

module _ (l : HarnessLoop) where
  abbrev pub log : String → String → State → State
  log event_type content s = record s {
    journal = append l.executor.redact_secret_text event_type content s.journal;
  }

  -- `_finish`
  abbrev pub finish_run : String → String → Option ℕ → State → Outcome AgentRunResult × State
  finish_run status summary approval_id s = (
    ok (record { status = status; final_summary = summary; approval_id = approval_id }),
    log "run_summary" summary s,
  )

  abbrev pub count_error : String → ℕ → ℕ → State → Turn
  count_error summary errors cost s =
      if leb l.agent_loop_max_repeated_errors (suc errors)
      then stop (finish_run "failed" summary none s)
      else go (suc errors) cost s

  abbrev pub after_action : ℕ → ℕ → Outcome Observation × State → Turn
  after_action errors cost (raise e, s) = stop (raise e, s)
  after_action errors cost (ok o, s) =
      if (o.observation_type == "approval") && (o.status == "pending")
      then stop (finish_run "paused" o.summary o.approval_id s)
      else if o.observation_type == "error"
      then count_error o.error_message errors cost s
      else go 0 cost s

  abbrev pub act : Action → ℕ → ℕ → State → Turn
  act (finish summary) errors cost s = stop (finish_run "completed" summary none s)
  act a errors cost s = after_action errors cost (execute_action l.executor a s)

  abbrev pub no_action : ModelResponse → ℕ → ℕ → State → Turn
  no_action response errors cost s =
      count_error (text_or response.error "Repeated model errors.") errors cost
        (log "error" (text_or response.error "Model did not return a valid action.") s)

  abbrev pub answer : ModelResponse → Option Action → ℕ → ℕ → State → Turn
  answer response none errors cost s = no_action response errors cost s
  answer response (some a) errors cost s =
      if not response.success
      then no_action response errors cost s
      else act a errors cost
          (log "agent_thought" (text_or (some response.content) (action_type a)) s)

  abbrev pub model_response : Task → ℕ → ℕ → State → ModelResponse
  model_response task iteration cost s = l.next_action record {
    task = task;
    history = reverse s.journal.events;
    current_cost = cost;
    iteration = iteration;
  }

  abbrev pub turn : Task → ℕ → ℕ → ℕ → State → Turn
  turn task iteration errors cost s =
      let response = model_response task iteration cost s in
      if l.runtime_exceeded iteration
      then stop (finish_run "failed" late none (log "error" late s))
      else answer response response.action errors (add_cost response.actual_cost cost) s

  -- The loop, on the number of iterations left.
  unfoldable pub iterate : Task → ℕ → ℕ → ℕ → ℕ → State → Outcome AgentRunResult × State
  iterate task zero iteration errors cost s =
      finish_run "failed" "Harness loop exceeded maximum iterations." none s
  iterate task (suc left) iteration errors cost s = elim (turn task iteration errors cost s) [
    | stop out ↦ out
    | go errors' cost' s' ↦ iterate task left (suc iteration) errors' cost' s'
  ]

  abbrev pub first_message : Task → String
  first_message t =
      text_or l.initial_user_message (strip (t.title <> ("\n" <> text_or t.description "")))

  abbrev pub greet : Task → List Event → State → State
  greet t [] s = log "user_message" (first_message t) s
  greet t (e ∷ events) s = s

  abbrev pub run_loaded : Option Task → State → Outcome AgentRunResult × State
  run_loaded none s = (raise (value_error "Task does not exist."), s)
  run_loaded (some t) s = iterate t l.agent_loop_max_iterations 0 0 0 (greet t s.journal.events s)

  unfoldable pub run_task : State → Outcome AgentRunResult × State
  unfolding iterate
  run_task s = run_loaded (find (has_id l.executor.task_id) s.journal.tasks) s
