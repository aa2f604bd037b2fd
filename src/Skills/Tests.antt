-- ===== src/Skills/Tests.antt =====
-- The skill service on a small store.
use agent_sam.Prelude.{
  ℕ, String, true, Option, none, some, [], ◌∷◌, ◌≡◌, refl, ap, arith, pos, Outcome, ok, raise,
  value_error, ◌==◌, nat_eq, string_eq, option_eq, if◌then◌else◌, strip, lstrip, char_count, words,
  lower, is_in, is_prefix, spaced, join, order_by, insert_ordered, text_leb, take_chars,
}
use agent_sam.Skills.Yaml.{Value, int, text, seq, dict, nil, cons, end, pair, is_serializable}
use agent_sam.Skills.Definition.{
  SkillDefinition, is_skill_name, normalize_required_string, normalize_strings,
  normalize_string_list, coerce_json_value, normalize_input, normalize_each, normalize_inputs,
  normalize_step, normalize_procedure, normalize_version, normalize_name, parse_payload,
  parse_skill_yaml,
}
use agent_sam.Skills.Definition.Wellformed.{parse_skill_yaml-IsWellformed}
use agent_sam.Skills.Definition.Normalized.{IsWellformed}
use agent_sam.Skills.Catalog.{
  Skill, SkillHost, get_latest_skill, get_skill_by_name_version, hash_existing_skill, skill_row,
  publish_skill_definition, get_skill_version_history,
}
use agent_sam.Skills.Catalog.History.{IsHistory}
use agent_sam.Skills.Catalog.Active.{IsCurrent}
use agent_sam.Skills.Proposals.{
  proposal_row, create_skill_proposal_record, create_skill_proposal, propose_skill_update,
  review_skill_proposal, approve_skill_proposal, activate_skill_proposal,
}
use agent_sam.Skills.Store.{SkillStore, Request, Review, get_pending_proposal}
use agent_sam.Skills.Proposals.Lifecycle.{IsKept}
use agent_sam.Skills.Reach.{
  IsReachable, empty, step, proposed_skill, reviewed_proposal, IsReachable-IsCurrent,
}
use agent_sam.Skills.Reach.Moves.{IsStep-IsKept}
use agent_sam.Skills.Reach.Approved.{IsStep-IsReviewed}
use agent_sam.Skills.Reach.Synced.{IsReviewed}
use agent_sam.Skills.Sync.{
  load_files, load_skill_definitions, sync_skill, sync_each, sync_skills_from_directory,
}
use agent_sam.Skills.Search.{
  build_excerpt, flatten_json_text, score_skill, search_result, search_relevant_skills,
}

abbrev texts : String → Value
texts s = seq (cons (text s) nil)

abbrev payload : Value
payload = dict (
    pair "name" (text " restart_nginx ") (
      pair "version" (int (pos 2)) (
        pair "description" (text "Restart the web server.") (
          pair "triggers" (seq (cons (text "restart") (cons (text " restart ") nil))) (
            pair "inputs" (seq (cons (dict (pair "name" (text "host") end)) nil)) (
              pair "procedure" (texts " check the configuration ") (
                pair "tools_allowed" (texts "safe_shell") (
                  pair "risk_notes" (seq nil) (
                    pair "failure_modes" (texts "nginx does not start")
                      (pair "evaluation_checklist" (texts "nginx answers") end))))))))))

program : Unit {0}
unfolding parse_skill_yaml parse_payload normalize_name normalize_version normalize_procedure
    normalize_step normalize_inputs normalize_each normalize_input coerce_json_value
    normalize_string_list normalize_strings normalize_required_string is_skill_name is_serializable
    strip lstrip char_count publish_skill_definition skill_row hash_existing_skill
    get_skill_by_name_version get_latest_skill get_skill_version_history order_by insert_ordered
    proposal_row get_pending_proposal create_skill_proposal_record create_skill_proposal
    propose_skill_update review_skill_proposal approve_skill_proposal activate_skill_proposal
    load_files load_skill_definitions sync_skill sync_each sync_skills_from_directory build_excerpt
    flatten_json_text score_skill search_result search_relevant_skills words lower is_in is_prefix
    spaced join text_leb take_chars
program = tt

abbrev no_text : Value → String
no_text v = "?"

abbrev parsed : Outcome SkillDefinition
parsed =
    parse_skill_yaml no_text (λ s. ok payload) " name: restart_nginx " (some "restart_nginx.yaml")

-- A definition of the tests, by its version.
abbrev definition : ℕ → SkillDefinition
definition version = record {
  name = "restart_nginx";
  version = version;
  description = "Restart the web server.";
  triggers = "restart" ∷ [];
  inputs = dict (pair "name" (text "host") end) ∷ [];
  procedure = text "check the configuration" ∷ [];
  tools_allowed = "safe_shell" ∷ [];
  risk_notes = [];
  failure_modes = "nginx does not start" ∷ [];
  evaluation_checklist = "nginx answers" ∷ [];
  yaml_definition = if version == 1 then "one" else "two";
  source_path = none;
}

abbrev host : SkillHost
host = record {
  parse = λ s path.
      if s == "one"
      then ok (definition 1)
      else if s == "two"
      then ok (definition 2)
      else raise (value_error s);
  content_hash = λ d. d.yaml_definition;
}

abbrev request : ℕ → Request
request key = record {
  proposal_id = key;
  approval_id = key;
  workspace_id = 1;
  requested_by_user_id = some 7;
  reason = none;
}

abbrev review : ℕ → Review
review key = record { skill_id = key; now = 100; proposal_id = key; reviewed_by_user_id = 8 }

module _ {A : Type 0} where
  abbrev store_of : Outcome (A × SkillStore) → SkillStore
  store_of (ok (a, s)) = s
  store_of (raise e) = record { skills = []; proposals = []; approvals = [] }

abbrev empty_store : SkillStore
empty_store = record { skills = []; proposals = []; approvals = [] }

abbrev proposed_one : SkillStore
proposed_one = store_of (create_skill_proposal host (request 1) "one" none empty_store)

abbrev published_one : SkillStore
published_one = store_of (review_skill_proposal host (review 1) true proposed_one)

abbrev proposed_two : SkillStore
proposed_two = store_of (create_skill_proposal host (request 2) "two" none published_one)

abbrev published_two : SkillStore
published_two = store_of (review_skill_proposal host (review 2) true proposed_two)

abbrev first_skill : Skill
first_skill = skill_row host 1 100 1 (definition 1) (some 8)

abbrev second_skill : Skill
second_skill = skill_row host 2 100 1 (definition 2) (some 8)

parsed-name :
    parsed
    ≡ ok (record (definition 2) {
      yaml_definition = "name: restart_nginx\n";
      source_path = some "restart_nginx.yaml";
    })
unfolding program
parsed-name = refl

stored_two : published_two.skills ≡ second_skill ∷ record first_skill { status = "superseded" } ∷ []
unfolding program
stored_two = refl

abbrev parsed_two : SkillDefinition
parsed_two = record (definition 2) {
  yaml_definition = "name: restart_nginx\n";
  source_path = some "restart_nginx.yaml";
}

parse_skill_yaml-IsWellformed_example : IsWellformed parsed_two
unfolding program
parse_skill_yaml-IsWellformed_example =
    parse_skill_yaml-IsWellformed no_text (λ s. ok payload) " name: restart_nginx "
      (some "restart_nginx.yaml") parsed_two refl

abbrev version_of : Option Skill → ℕ
version_of none = 0
version_of (some s) = s.definition.version

one_reachable : IsReachable host published_one
unfolding program
one_reachable =
    step proposed_one published_one
      (step empty_store proposed_one empty (proposed_skill (request 1) "one" none _ refl refl))
      (reviewed_proposal (review 1) true _ refl)

two_reachable : IsReachable host published_two
unfolding program
two_reachable =
    step proposed_two published_two
      (step published_one proposed_two one_reachable
        (proposed_skill (request 2) "two" none _ refl refl))
      (reviewed_proposal (review 2) true _ refl)

IsReachable-IsCurrent_example : IsHistory published_two.skills × IsCurrent published_two.skills
IsReachable-IsCurrent_example = IsReachable-IsCurrent host published_two two_reachable

IsStep-IsKept_example : IsKept proposed_two.proposals published_two.proposals
unfolding program
IsStep-IsKept_example =
    IsStep-IsKept host proposed_two published_two (reviewed_proposal (review 2) true _ refl)

IsStep-IsReviewed_example : IsReviewed proposed_two published_two 1 "restart_nginx"
unfolding program
IsStep-IsReviewed_example =
    IsStep-IsReviewed host proposed_two published_two 1 "restart_nginx" first_skill
      (IsReachable-IsCurrent host proposed_two (
        step published_one proposed_two one_reachable
          (proposed_skill (request 2) "two" none _ refl refl)))
      (reviewed_proposal (review 2) true _ refl) refl
      (λ e. let bad : ◌≡◌ {A = ℕ} 2 1 = ap version_of e in omega (arith, bad))

found_two :
    search_relevant_skills no_text 1 "restart nginx" 4 published_two.skills
    ≡ search_result no_text "restart nginx" second_skill ∷ []
unfolding program
found_two = refl
