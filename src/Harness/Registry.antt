-- ===== src/Harness/Registry.antt =====
-- harness/tool_registry.py, and the events and observations of harness/events.py and
-- harness/observations.py with the fields that the executor and the loop read. `Journal` is what a
-- run leaves in the database.
use agent_sam.Prelude.{
  ℕ, String, Bool, true, false, not, ◌||◌, Option, none, some, List, [], ◌∷◌, find, select,
  contains, if◌then◌else◌, ◌==◌, string_eq, option_eq, Outcome, ok, raise, key_error, value_error,
  nat_eq,
}
use agent_sam.Database.{Task}
use agent_sam.Harness.Actions.{Action, action_type}

pub record Event : Type 0 where
  pub event_type : String
  pub content : String

pub record Observation : Type 0 where
  pub observation_type : String
  pub success : Bool
  pub summary : String
  pub stderr : Option String
  pub tool_call_id : Option ℕ
  pub error_type : String
  pub error_message : String
  pub approval_id : Option ℕ
  pub status : String

-- The approval of an action.
pub record ActionApproval : Type 0 where
  pub id : ℕ
  pub workspace_id : ℕ
  pub task_id : ℕ
  pub requested_by_user_id : Option ℕ
  pub status : String
  pub reason : String
  pub tool_name : String
  pub payload : Action

-- A row of `log_tool_call`.
pub record LoggedCall : Type 0 where
  pub tool_name : String
  pub input_payload : Action
  pub output_text : String
  pub stderr_text : Option String
  pub status : String
  pub task_id : ℕ

-- The latest events, approvals and calls come first.
pub record Journal : Type 0 where
  pub tasks : List Task
  pub events : List Event
  pub approvals : List ActionApproval
  pub tool_calls : List LoggedCall

-- `EventStore.append`: the row that `append_event` writes has its text redacted.
abbrev pub append : (String → String) → String → String → Journal → Journal
append redact event_type content j = record j {
  events = record { event_type = event_type; content = redact content } ∷ j.events;
}

-- A handler runs on the journal, and returns an observation or raises.
abbrev pub Handler : Type 0
Handler = Action → Journal → Outcome Observation × Journal

-- `input_schema` names the action type of the schema's model.
pub record ToolSpec : Type 0 where
  pub name : String
  pub description : String
  pub input_schema : Option String
  pub handler : Option Handler
  pub allowed_agents : List String
  pub workspace_required : Bool
  pub network_required : Bool

abbrev pub has_name : String → ToolSpec → Bool
has_name name t = t.name == name

-- The registered tools, in the order of a dict: a tool that is registered again keeps its place.
unfoldable pub register_tool : ToolSpec → List ToolSpec → List ToolSpec
register_tool t [] = t ∷ []
register_tool t (x ∷ xs) =
    let rest = register_tool t xs in if x.name == t.name then t ∷ xs else x ∷ rest

unfoldable pub unregister_tool : String → List ToolSpec → List ToolSpec
unregister_tool name = select (λ t. not (t.name == name))

abbrev pub found_tool : Option ToolSpec → Outcome ToolSpec
found_tool none = raise (key_error "Tool not registered.")
found_tool (some t) = ok t

unfoldable pub get_tool : String → List ToolSpec → Outcome ToolSpec
get_tool name tools = found_tool (find (has_name name) tools)

abbrev pub matches_schema : Option String → Action → Outcome Action
matches_schema none a = ok a
matches_schema (some schema) a =
    if action_type a == schema then ok a else raise (value_error "validation error")

-- `validate_tool_input` on the fields of an action: a schema reads back what its own model wrote, and
-- refuses the `action_type` of another model.
unfoldable pub validate_tool_input : ToolSpec → Action → Outcome Action
validate_tool_input t a = matches_schema t.input_schema a

abbrev is_empty : List String → Bool
is_empty [] = true
is_empty (x ∷ xs) = false

abbrev open_to : String → ToolSpec → Bool
open_to agent_slug t = is_empty t.allowed_agents || contains t.allowed_agents agent_slug

unfoldable pub tools_for_agent : String → List ToolSpec → List ToolSpec
tools_for_agent agent_slug = select (open_to agent_slug)
