-- ===== src/Shell/Classify.antt =====
-- tools/shell_command.py: `_classify_command`.
pub mod Levels
use agent_sam.Prelude.{
  String, Bool, true, false, not, Option, none, some, List, [], ◌∷◌, find, if◌then◌else◌, ◌==◌,
  string_eq, starts_with, strip, lstrip, split, join, drop_chars,
}
use agent_sam.Shell.Rules.{
  RiskRule, Search, matches, blocked_rules, dangerous_rules, high_risk_rules, medium_risk_rules,
}
use agent_sam.Shell.SafeRules.{safe_rules}

pub record RiskAssessment : Type 0 where
  pub risk_level : String
  pub requires_approval : Bool
  pub blocked : Bool
  pub reason : String
  pub matched_rule : String

-- White space is normalised, and one `sudo ` taken off.
unfoldable pub classify_target : String → String
unfolding strip split join lstrip drop_chars
classify_target command =
    let normalized = join " " (split (strip command)) in
    if starts_with normalized "sudo " then lstrip (drop_chars 5 normalized) else normalized

module _ (search : Search) where
  unfoldable pub match_rule : String → List RiskRule → Option RiskRule
  match_rule command = find (λ r. matches search r command)

  abbrev pub block : RiskRule → RiskAssessment
  block r = record {
    risk_level = "dangerous";
    requires_approval = false;
    blocked = true;
    reason = r.reason;
    matched_rule = r.name;
  }

  abbrev assess : String → RiskRule → RiskAssessment
  assess risk_level r = record {
    risk_level = risk_level;
    requires_approval = not (risk_level == "safe");
    blocked = false;
    reason = r.reason;
    matched_rule = r.name;
  }

  abbrev default_assessment : RiskAssessment
  default_assessment = record {
    risk_level = "safe";
    requires_approval = false;
    blocked = false;
    reason = "Default: all commands allowed in admin mode.";
    matched_rule = "default-admin-mode";
  }

  -- The loop over the levels: the first level with a rule that matches decides.
  unfoldable pub first_level : String → List (String × List RiskRule) → RiskAssessment
  unfolding match_rule
  first_level command [] = default_assessment
  first_level command ((risk_level, rules) ∷ rest) =
      let later = first_level command rest in
      elim (match_rule command rules) [ none ↦ later | some r ↦ assess risk_level r ]

  abbrev pub levels : List (String × List RiskRule)
  levels =
      ("safe", safe_rules)
      ∷ ("dangerous", dangerous_rules)
      ∷ ("high", high_risk_rules)
      ∷ ("medium", medium_risk_rules)
      ∷ []

  abbrev pub classify_by_target : String → RiskAssessment
  classify_by_target target = elim (match_rule target blocked_rules) [
    | none ↦ first_level target levels
    | some r ↦ block r
  ]

  unfoldable pub classify_command : String → RiskAssessment
  unfolding match_rule first_level classify_target
  classify_command command = classify_by_target (classify_target command)
