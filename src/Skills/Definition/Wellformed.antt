-- ===== src/Skills/Definition/Wellformed.antt =====
-- What a parsed skill definition guarantees.
use agent_sam.Prelude.{
  String, true, Option, ◌≡◌, subst, nat_eq, string_eq, strip, Outcome, ok, >>=-eq-ok, guarded-ok,
  ok-injective, option_eq,
}
use agent_sam.Skills.Yaml.{Value, null, bool, int, float, text, other, seq, dict, get_key}
use agent_sam.Skills.Definition.{
  SkillDefinition, is_skill_name, normalize_required_string, normalize_string_list,
  normalize_inputs, normalize_procedure, normalize_version, normalize_name, parse_payload,
  parse_skill_yaml, check_fields, name_text, value_of,
}
use agent_sam.Skills.Definition.Normalized.{
  IsWellformed, normalize_required_string-IsFilled, normalize_string_list-IsTextList,
  normalize_inputs-All, normalize_procedure-All, normalize_version-pos,
}

module _ (str_of : Value → String) where
  normalize_name-named :
      (v : Value) (s : String) → normalize_name str_of v ≡ ok s → is_skill_name s ≡ true
  unfolding normalize_name
  normalize_name-named v s h =
      let (named, same) = guarded-ok (is_skill_name (strip (name_text str_of v))) _ _ h in
      subst (λ t. is_skill_name t ≡ true) (ok-injective _ _ same) named

  parse_payload-IsWellformed :
      (source : String) (path : Option String) (v : Value) (d : SkillDefinition)
      → parse_payload str_of source path v ≡ ok d
      → IsWellformed d
  unfolding parse_payload
  parse_payload-IsWellformed source path (dict payload) d h =
      let field = λ (key : String). value_of (get_key key payload) in
      let (_, checked, h1) = >>=-eq-ok (check_fields str_of payload) _ h in
      let (name, named, h2) = >>=-eq-ok (normalize_name str_of (field "name")) _ h1 in
      let (version, versioned, h3) = >>=-eq-ok (normalize_version (field "version")) _ h2 in
      let (description, described, h4) =
        >>=-eq-ok (normalize_required_string (field "description")) _ h3 in
      let (triggers, l1, h5) = >>=-eq-ok (normalize_string_list (field "triggers")) _ h4 in
      let (tools, l2, h6) = >>=-eq-ok (normalize_string_list (field "tools_allowed")) _ h5 in
      let (risks, l3, h7) = >>=-eq-ok (normalize_string_list (field "risk_notes")) _ h6 in
      let (failures, l4, h8) = >>=-eq-ok (normalize_string_list (field "failure_modes")) _ h7 in
      let (checks, l5, h9) =
        >>=-eq-ok (normalize_string_list (field "evaluation_checklist")) _ h8 in
      let (inputs, l6, h10) = >>=-eq-ok (normalize_inputs (field "inputs")) _ h9 in
      let (procedure, l7, same) = >>=-eq-ok (normalize_procedure (field "procedure")) _ h10 in
      subst IsWellformed (ok-injective _ _ same) (record {
        named = normalize_name-named (field "name") name named;
        versioned = normalize_version-pos (field "version") version versioned;
        described = normalize_required_string-IsFilled (field "description") description described;
        triggers = normalize_string_list-IsTextList (field "triggers") triggers l1;
        tools_allowed = normalize_string_list-IsTextList (field "tools_allowed") tools l2;
        risk_notes = normalize_string_list-IsTextList (field "risk_notes") risks l3;
        failure_modes = normalize_string_list-IsTextList (field "failure_modes") failures l4;
        evaluation_checklist =
            normalize_string_list-IsTextList (field "evaluation_checklist") checks l5;
        inputs = normalize_inputs-All (field "inputs") inputs l6;
        procedure = (normalize_procedure-All (field "procedure") procedure l7).0;
        has_step = (normalize_procedure-All (field "procedure") procedure l7).1;
      })
  parse_payload-IsWellformed source path (text t) s h = cc
  parse_payload-IsWellformed source path null s h = cc
  parse_payload-IsWellformed source path (bool b) s h = cc
  parse_payload-IsWellformed source path (int n) s h = cc
  parse_payload-IsWellformed source path (float t) s h = cc
  parse_payload-IsWellformed source path (other t) s h = cc
  parse_payload-IsWellformed source path (seq items) s h = cc

  -- A definition that is read from YAML has a name of the pattern, a positive version, a description,
  -- lists of texts that are filled and distinct, inputs with names, and at least one step, each of
  -- them a filled text or an object.
  pub parse_skill_yaml-IsWellformed :
      (safe_load : String → Outcome Value) (source : String) (path : Option String)
      (d : SkillDefinition)
      → parse_skill_yaml str_of safe_load source path ≡ ok d
      → IsWellformed d
  unfolding parse_skill_yaml
  parse_skill_yaml-IsWellformed safe_load source path d h =
      let (v, loaded, parsed) = >>=-eq-ok (safe_load source) _ h in
      parse_payload-IsWellformed source path v d parsed
