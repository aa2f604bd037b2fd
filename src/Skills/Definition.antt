-- ===== src/Skills/Definition.antt =====
-- db/skill_service.py: `parse_skill_yaml` and its `_normalize_*` helpers. `yaml.safe_load` and the
-- text of a value that is not a text are arguments.
pub mod Normalized
pub mod Wellformed
use Prim.Native.Char.{code}
use agent_sam.Prelude.{
  ℕ, zero, suc, String, ◌<>◌, Bool, true, false, not, ◌&&◌, ◌||◌, Option, none, some, List, [], ◌∷◌,
  ◌++◌, all, contains, ltb, leb, ℤ, pos, negsuc, if◌then◌else◌, ◌==◌, nat_eq, string_eq, strip,
  char_count, Exception, Outcome, ok, raise, value_error, require, ◌>>=◌, ◌>>◌,
}
use agent_sam.Skills.Yaml.{
  Value, null, bool, int, float, text, other, seq, dict, Values, nil, cons, Pairs, end, pair, keys,
  get_key, is_serializable,
}

pub record SkillDefinition : Type 0 where
  pub name : String
  pub version : ℕ
  pub description : String
  pub triggers : List String
  pub inputs : List Value
  pub procedure : List Value
  pub tools_allowed : List String
  pub risk_notes : List String
  pub failure_modes : List String
  pub evaluation_checklist : List String
  pub yaml_definition : String
  pub source_path : Option String

abbrev pub required_skill_fields : List String
required_skill_fields =
    "name" ∷ "version" ∷ "description" ∷ "triggers" ∷ "inputs" ∷ "procedure" ∷ "tools_allowed"
    ∷ "risk_notes" ∷ "failure_modes" ∷ "evaluation_checklist" ∷ []

is_lower : ℕ → Bool
is_lower c = leb 97 c && leb c 122

is_digit : ℕ → Bool
is_digit c = leb 48 c && leb c 57

is_name_tail : String → Bool
unfolding is_lower is_digit
is_name_tail String.[] = true
is_name_tail (String.◌∷◌ c s) =
    (is_lower (code c) || is_digit (code c) || code c == 95) && is_name_tail s

-- SKILL_NAME_PATTERN, `^[a-z][a-z0-9_]{1,127}$`
unfoldable pub is_skill_name : String → Bool
unfolding is_lower is_name_tail char_count
is_skill_name String.[] = false
is_skill_name (String.◌∷◌ c s) =
    is_lower (code c) && (is_name_tail s && (leb 1 (char_count s) && leb (char_count s) 127))

-- `_normalize_required_string`
unfoldable pub normalize_required_string : Value → Outcome String
normalize_required_string (text s) =
    if strip s == ""
    then raise (value_error "Skill field must be a non-empty string.")
    else ok (strip s)
normalize_required_string _ = raise (value_error "Skill field must be a non-empty string.")

-- The loop of `_normalize_string_list`: texts that were seen are left out.
unfoldable pub normalize_strings : List String → Values → Outcome (List String)
normalize_strings seen nil = ok []
normalize_strings seen (cons v rest) = normalize_required_string v >>= λ cleaned.
    elim (contains seen cleaned) [
      | true ↦ normalize_strings seen rest
      | false ↦ normalize_strings (cleaned ∷ seen) rest >>= λ later. ok (cleaned ∷ later)
    ]

unfoldable pub normalize_string_list : Value → Outcome (List String)
unfolding normalize_strings
normalize_string_list (seq items) = normalize_strings [] items
normalize_string_list _ = raise (value_error "Skill field must be a list of strings.")

-- `_coerce_json_value`
unfoldable pub coerce_json_value : Value → Outcome Value
coerce_json_value v =
    if is_serializable v then ok v else raise (value_error "Skill field must be JSON serializable.")

-- A name that is a text with more than white space.
abbrev pub is_named : Option Value → Bool
is_named (some (text s)) = not (strip s == "")
is_named _ = false

unfoldable pub normalize_input : Value → Outcome Value
unfolding coerce_json_value
normalize_input (dict fields) =
    coerce_json_value (dict fields)
    >> (if is_named (get_key "name" fields)
        then ok (dict fields)
        else raise (value_error "Each skill input must include a non-empty 'name'."))
normalize_input _ = raise (value_error "Each skill input must be an object.")

unfoldable pub normalize_each : (Value → Outcome Value) → Values → Outcome (List Value)
normalize_each f nil = ok []
normalize_each f (cons v rest) = f v >>= λ w. normalize_each f rest >>= λ later. ok (w ∷ later)

unfoldable pub normalize_inputs : Value → Outcome (List Value)
unfolding normalize_each normalize_input
normalize_inputs (seq items) = normalize_each normalize_input items
normalize_inputs _ = raise (value_error "Skill field 'inputs' must be a list.")

unfoldable pub normalize_step : Value → Outcome Value
unfolding coerce_json_value normalize_required_string
normalize_step (text s) = normalize_required_string (text s) >>= λ t. ok (text t)
normalize_step (dict fields) = coerce_json_value (dict fields)
normalize_step _ = raise (value_error "Each procedure step must be a string or an object.")

unfoldable pub normalize_procedure : Value → Outcome (List Value)
unfolding normalize_each normalize_step
normalize_procedure (seq (cons v rest)) = normalize_each normalize_step (cons v rest)
normalize_procedure _ = raise (value_error "Skill field 'procedure' must be a non-empty list.")

-- `isinstance(version, int) and version > 0`; `True` is an instance of int, and equal to 1.
unfoldable pub normalize_version : Value → Outcome ℕ
normalize_version (int (pos (suc n))) = ok (suc n)
normalize_version (bool true) = ok 1
normalize_version _ = raise (value_error "Skill version must be a positive integer.")

abbrev pub value_of : Option Value → Value
value_of none = null
value_of (some v) = v

module _ (str_of : Value → String) where
  -- `str(payload["name"])`
  abbrev pub name_text : Value → String
  name_text (text s) = s
  name_text v = str_of v

  unfoldable pub normalize_name : Value → Outcome String
  normalize_name v =
      let name = strip (name_text v) in
      if is_skill_name name
      then ok name
      else raise (value_error "Skill name must use lower snake_case and start with a letter.")

  abbrev pub check_fields : Pairs → Outcome (Unit {0})
  check_fields payload =
      require (all (contains (keys payload)) required_skill_fields)
        (value_error "Skill YAML is missing required fields.")
      >> require (all (contains required_skill_fields) (keys payload))
          (value_error "Skill YAML contains unexpected fields.")

  unfoldable pub parse_payload : String → Option String → Value → Outcome SkillDefinition
  unfolding normalize_name normalize_version normalize_required_string normalize_string_list
      normalize_inputs normalize_procedure
  parse_payload yaml_definition source_path (dict payload) = do
    let field = λ (key : String). value_of (get_key key payload)
    check_fields payload
    name ← normalize_name (field "name")
    version ← normalize_version (field "version")
    description ← normalize_required_string (field "description")
    triggers ← normalize_string_list (field "triggers")
    tools_allowed ← normalize_string_list (field "tools_allowed")
    risk_notes ← normalize_string_list (field "risk_notes")
    failure_modes ← normalize_string_list (field "failure_modes")
    evaluation_checklist ← normalize_string_list (field "evaluation_checklist")
    inputs ← normalize_inputs (field "inputs")
    procedure ← normalize_procedure (field "procedure")
    ok (record {
      name = name;
      version = version;
      description = description;
      triggers = triggers;
      inputs = inputs;
      procedure = procedure;
      tools_allowed = tools_allowed;
      risk_notes = risk_notes;
      failure_modes = failure_modes;
      evaluation_checklist = evaluation_checklist;
      yaml_definition = strip yaml_definition <> "\n";
      source_path = source_path;
    })
  parse_payload yaml_definition source_path _ =
      raise (value_error "Skill YAML must decode to an object.")

  -- `safe_load` raises for a text that is no YAML.
  unfoldable pub parse_skill_yaml :
      (String → Outcome Value) → String → Option String → Outcome SkillDefinition
  parse_skill_yaml safe_load yaml_definition source_path =
      safe_load yaml_definition >>= λ payload. parse_payload yaml_definition source_path payload
