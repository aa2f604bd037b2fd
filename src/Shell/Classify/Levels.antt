-- ===== src/Shell/Classify/Levels.antt =====
-- The assessment of a command, read off the rules that match it.
use agent_sam.Prelude.{
  String, Bool, not, ◌&&◌, ◌||◌, ◌≡◌, arith, any, any-find, if◌then◌else◌, List, nat_eq, string_eq,
  option_eq,
}
use agent_sam.Shell.Rules.{
  RiskRule, Search, matches, blocked_rules, dangerous_rules, high_risk_rules, medium_risk_rules,
}
use agent_sam.Shell.SafeRules.{safe_rules}
use agent_sam.Shell.Classify.{classify_target, match_rule, first_level, classify_command}

module _ (search : Search) where
  -- Some rule of the list matches.
  abbrev pub any_match : List RiskRule → String → Bool
  any_match rules target = any (λ r. matches search r target) rules

  abbrev pub expected_level : String → String
  expected_level t =
      if any_match blocked_rules t
      then "dangerous"
      else if any_match safe_rules t
      then "safe"
      else if any_match dangerous_rules t
      then "dangerous"
      else if any_match high_risk_rules t
      then "high"
      else if any_match medium_risk_rules t
      then "medium"
      else "safe"

  abbrev pub expected_approval : String → Bool
  expected_approval t =
      not (any_match blocked_rules t)
      && (not (any_match safe_rules t)
          && (any_match dangerous_rules t
              || (any_match high_risk_rules t || any_match medium_risk_rules t)))

  -- A command is blocked exactly if a blocked rule matches it. It needs an approval exactly if no
  -- blocked rule and no safe rule does, and a dangerous, a high risk or a medium risk rule does.
  -- Its risk level is that of the first of these lists with a match, and safe if none has one.
  pub classify_command_levels :
      (command : String)
      → let t = classify_target command in
        let a = classify_command search command in
        (a.blocked ≡ any_match blocked_rules t)
        × (a.requires_approval ≡ expected_approval t)
        × (a.risk_level ≡ expected_level t)
  unfolding classify_command match_rule first_level
  classify_command_levels command =
      let t = classify_target command in
      let p = λ (r : RiskRule). matches search r t in
      rw
        (
          any-find p blocked_rules,
          any-find p safe_rules,
          any-find p dangerous_rules,
          any-find p high_risk_rules,
          any-find p medium_risk_rules,
        )
        (ground arith, ground arith, ground arith)
