-- ===== src/Events/Store.antt =====
-- db/repositories.py: `append_event`, `list_events` and `_next_agent_event_sequence`; harness/events.py:
-- the models of events. New rows come last. The replacement in texts is an argument.
use agent_sam.Prelude.{
  not, ℕ, ◌+◌, max, String, Bool, true, ◌&&◌, ◌||◌, Option, none, some, List, [], ◌∷◌, ◌++◌, select,
  take, contains, order_by, if◌then◌else◌, ◌==◌, nat_eq, string_eq, option_eq, ltb, leb, strip,
  lower, Json, Outcome, ok, raise, value_error,
}
use agent_sam.Events.Redact.{redact_secret_data}

-- A row of `agent_events`.
pub record AgentEvent : Type 0 where
  pub id : ℕ
  pub task_id : Option ℕ
  pub agent_run_id : Option ℕ
  pub agent_slug : Option String
  pub sequence : ℕ
  pub event_type : String
  pub content : String
  pub metadata : Json
  pub parent_event_id : Option ℕ
  pub created_at : ℕ

-- What is appended. A sequence of 0 is none.
pub record NewEvent : Type 0 where
  pub task_id : Option ℕ
  pub agent_run_id : Option ℕ
  pub agent_slug : Option String
  pub event_type : String
  pub content : String
  pub metadata : Json
  pub parent_event_id : Option ℕ
  pub sequence : Option ℕ

-- The rows of a run, or else of a task, or else all.
abbrev pub in_scope : Option ℕ → Option ℕ → AgentEvent → Bool
in_scope task_id (some run) e = e.agent_run_id == some run
in_scope (some task) none e = e.task_id == some task
in_scope none none e = true

-- `coalesce(max(sequence), 0)`
abbrev pub max_sequence : List AgentEvent → ℕ
max_sequence [] = 0
max_sequence (e ∷ events) = max e.sequence (max_sequence events)

unfoldable pub next_agent_event_sequence : Option ℕ → Option ℕ → List AgentEvent → ℕ
next_agent_event_sequence task_id agent_run_id events =
    max_sequence (select (in_scope task_id agent_run_id) events) + 1

-- `sequence or next`
abbrev pub sequence_or : Option ℕ → ℕ → ℕ
sequence_or none next = next
sequence_or (some n) next = if n == 0 then next else n

-- `ORDER BY sequence ASC, created_at ASC`
abbrev pub listed_before : AgentEvent → AgentEvent → Bool
listed_before d e =
    ltb d.sequence e.sequence || (d.sequence == e.sequence && leb d.created_at e.created_at)

abbrev pub limited : Option ℕ → List AgentEvent → List AgentEvent
limited none events = events
limited (some limit) events = take limit events

unfoldable pub list_events : Option ℕ → Option ℕ → Option ℕ → List AgentEvent → List AgentEvent
list_events task_id agent_run_id limit events =
    limited limit (order_by listed_before (select (in_scope task_id agent_run_id) events))

module _ (sub : String → String) where
  unfoldable pub event_row : ℕ → ℕ → ℕ → NewEvent → AgentEvent
  unfolding redact_secret_data
  event_row id now sequence e = record {
    id = id;
    task_id = e.task_id;
    agent_run_id = e.agent_run_id;
    agent_slug = e.agent_slug;
    sequence = sequence;
    event_type = e.event_type;
    content = sub e.content;
    metadata = redact_secret_data sub e.metadata;
    parent_event_id = e.parent_event_id;
    created_at = now;
  }

  unfoldable pub append_event : ℕ → ℕ → NewEvent → List AgentEvent → AgentEvent × List AgentEvent
  unfolding event_row next_agent_event_sequence
  append_event id now e events =
      let row =
        event_row id now
          (sequence_or e.sequence (next_agent_event_sequence e.task_id e.agent_run_id events)) e in
      (row, events ++ (row ∷ []))

abbrev pub event_types : List String
event_types =
    "user_message" ∷ "agent_thought" ∷ "tool_call" ∷ "tool_result" ∷ "file_edit" ∷ "shell_command"
    ∷ "browser_action" ∷ "approval_requested" ∷ "approval_resolved" ∷ "error" ∷ "run_summary" ∷ []

-- `parse_event` on the fields of a row: the models of the known types take their own type only, any
-- other type has the common model.
unfoldable pub agent_event_to_model : AgentEvent → Outcome AgentEvent
agent_event_to_model row =
    if contains event_types (lower (strip row.event_type))
      && not (row.event_type == lower (strip row.event_type))
    then raise (value_error "event_type")
    else ok row
