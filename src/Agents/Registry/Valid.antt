-- ===== src/Agents/Registry/Valid.antt =====
-- The profiles that the registry accepts.
use agent_sam.Prelude.{
  ◌<◌, String, Bool, true, false, not, ◌&&◌, ◌||◌, List, [], ◌∷◌, any, all, contains, ◌≡◌, ◌≢◌, ◌↔◌,
  refl, sym, ap, ◌∙◌, inl, inr, In, All, All-map, all-All, All-all, any-false_All, All-any-false,
  contains-In, In-contains, ◌==◌, nat_eq, string_eq, Exception, Outcome, ok, raise, require, ◌>>◌,
  >>=-eq-ok, ok-injective, Bool-cases, arith, option_eq,
}
use agent_sam.Agents.Profile.{AgentProfile}
use agent_sam.Agents.Registry.{
  known_tools, known_memory_types, risk_levels, dangerous_tools, validate_profile, validate_from,
  validate_agent_profiles,
}

-- What the registry asks of a profile.
pub record IsValid (exists : String → Bool) (p : AgentProfile) : Type 0 where
  pub has_models : (p.default_model ≢ "") × (p.escalation_model ≢ "")
  pub has_limits : (0 < p.max_cost_per_task) × (0 < p.max_tokens_per_run)
  pub has_prompt : exists p.system_prompt_path ≡ true
  pub knows_tools : All (λ t. In t known_tools) p.tools_allowed
  pub has_risk : In p.risk_level risk_levels
  pub bears_risk : p.risk_level ≡ "low" → All (λ t. ¬ In t dangerous_tools) p.tools_allowed
  pub knows_memories : All (λ t. In t known_memory_types) p.memory_types_allowed

-- No two profiles share a slug, and none has one of `seen`.
abbrev pub IsDistinct : List String → List AgentProfile → Type 0
IsDistinct seen [] = Unit
IsDistinct seen (p ∷ ps) = (¬ In p.slug seen) × IsDistinct (p.slug ∷ seen) ps

require-ok :
    (m : Outcome (Unit {0})) (b : Bool) (e : Exception)
    → (m >> require b e) ≡ ok tt
    → (m ≡ ok tt) × (b ≡ true)
require-ok (raise x) b e h = cc
require-ok (ok u) true e h = (refl, refl)
require-ok (ok u) false e h = cc

require_ok :
    (m : Outcome (Unit {0})) (b : Bool) (e : Exception)
    → m ≡ ok tt
    → b ≡ true
    → (m >> require b e) ≡ ok tt
require_ok m b e h k = rw (h, k) refl

neither_empty : (s t : String) → not (s == "" || t == "") ≡ true → (s ≢ "") × (t ≢ "")
neither_empty s t h =
    (λ e. ground (arith, string_eq.beq_iff s ""), λ e. ground (arith, string_eq.beq_iff t ""))

neither_empty-inv : (s t : String) → s ≢ "" → t ≢ "" → not (s == "" || t == "") ≡ true
neither_empty-inv s t f g = ground (arith, string_eq.beq_iff s "", string_eq.beq_iff t "")

safe_tools :
    (b : Bool) (level : String) → not (b && level == "low") ≡ true → level ≡ "low" → b ≡ false
safe_tools b level h e = ground (arith, string_eq.beq_iff level "low")

safe_tools-inv :
    (b : Bool) (level : String) → (level ≡ "low" → b ≡ false) → not (b && level == "low") ≡ true
safe_tools-inv b level h = ground (arith, string_eq.beq_iff level "low")

module _ (xs : List String) where
  contains-each : (ys : List String) → all (contains xs) ys ≡ true → All (λ t. In t xs) ys
  contains-each ys h = All-map _ _ ys (λ t m. contains-In xs t m) (all-All (contains xs) ys h)

  each-contains : (ys : List String) → All (λ t. In t xs) ys → all (contains xs) ys ≡ true
  each-contains ys h = All-all (contains xs) ys (All-map _ _ ys (λ t m. In-contains xs t m) h)

  not_contains-In : (a : String) → contains xs a ≡ false → ¬ In a xs
  not_contains-In a h m = let bad : false ≡ true = sym h ∙ In-contains xs a m in cc

  not_In-contains : (a : String) → ¬ In a xs → contains xs a ≡ false
  not_In-contains a h = elim (Bool-cases (contains xs a)) [
    | inl e ↦ absurd (h (contains-In xs a e))
    | inr e ↦ e
  ]

module _ (exists : String → Bool) where
  validate_profile-IsValid :
      (seen : List String) (p : AgentProfile)
      → validate_profile exists seen p ≡ ok tt
      → (¬ In p.slug seen) × IsValid exists p
  unfolding validate_profile
  validate_profile-IsValid seen p h =
      let (h8, memories) = require-ok _ _ _ h in
      let (h7, safe) = require-ok _ _ _ h8 in
      let (h6, risk) = require-ok _ _ _ h7 in
      let (h5, tools) = require-ok _ _ _ h6 in
      let (h4, prompt) = require-ok _ _ _ h5 in
      let (h3, tokens) = require-ok _ _ _ h4 in
      let (h2, cost) = require-ok _ _ _ h3 in
      let (h1, models) = require-ok _ _ _ h2 in
      let fresh : not (contains seen p.slug) ≡ true =
        (require-ok (ok tt) (not (contains seen p.slug)) _ h1).1 in
      (
        not_contains-In seen p.slug (ground arith),
        record {
          has_models = neither_empty p.default_model p.escalation_model models;
          has_limits = (ground arith, ground arith);
          has_prompt = prompt;
          knows_tools = contains-each known_tools p.tools_allowed tools;
          has_risk = contains-In risk_levels p.risk_level risk;
          bears_risk = λ low.
              All-map _ _ p.tools_allowed (λ t h. not_contains-In dangerous_tools t h)
                (any-false_All (contains dangerous_tools) p.tools_allowed (
                  safe_tools (any (contains dangerous_tools) p.tools_allowed) p.risk_level safe
                    low));
          knows_memories = contains-each known_memory_types p.memory_types_allowed memories;
        },
      )

  IsValid-validate_profile :
      (seen : List String) (p : AgentProfile)
      → ¬ In p.slug seen
      → IsValid exists p
      → validate_profile exists seen p ≡ ok tt
  unfolding validate_profile
  IsValid-validate_profile seen p fresh v =
      let danger = λ (low : p.risk_level ≡ "low").
        All-any-false (contains dangerous_tools) p.tools_allowed (
          All-map (λ t. ¬ In t dangerous_tools) _ p.tools_allowed
            (λ t h. not_In-contains dangerous_tools t h) (v.bears_risk low)) in
      require_ok _ _ _
        (require_ok _ _ _
          (require_ok _ _ _
            (require_ok _ _ _
              (require_ok _ _ _
                (require_ok _ _ _
                  (require_ok _ _ _
                    (require_ok _ _ _ (let new = not_In-contains seen p.slug fresh in rw new refl) (
                      neither_empty-inv p.default_model p.escalation_model v.has_models.0
                        v.has_models.1))
                    (let less = v.has_limits.0 in ground arith))
                  (let less = v.has_limits.1 in ground arith))
                v.has_prompt)
              (each-contains known_tools p.tools_allowed v.knows_tools))
            (In-contains risk_levels p.risk_level v.has_risk))
          (safe_tools-inv (any (contains dangerous_tools) p.tools_allowed) p.risk_level danger))
        (each-contains known_memory_types p.memory_types_allowed v.knows_memories)

  validate_from-IsValid :
      (seen : List String) (ps qs : List AgentProfile)
      → validate_from exists seen ps ≡ ok qs
      → (qs ≡ ps) × All (IsValid exists) ps × IsDistinct seen ps
  unfolding validate_from
  validate_from-IsValid seen [] qs h = (ok-injective qs [] (sym h), tt, tt)
  validate_from-IsValid seen (p ∷ ps) qs h =
      let (u, first, h1) = >>=-eq-ok (validate_profile exists seen p) _ h in
      let (rest, later, h2) = >>=-eq-ok (validate_from exists (p.slug ∷ seen) ps) _ h1 in
      let (fresh, v) = validate_profile-IsValid seen p first in
      let (same, valid, distinct) = validate_from-IsValid (p.slug ∷ seen) ps rest later in
      (sym (ok-injective _ _ h2) ∙ ap (λ r. p ∷ r) same, (v, valid), (fresh, distinct))

  IsValid-validate_from :
      (seen : List String) (ps : List AgentProfile)
      → All (IsValid exists) ps
      → IsDistinct seen ps
      → validate_from exists seen ps ≡ ok ps
  unfolding validate_from
  IsValid-validate_from seen [] valid distinct = refl
  IsValid-validate_from seen (p ∷ ps) valid distinct =
      rw
        (
          IsValid-validate_profile seen p distinct.0 valid.0,
          IsValid-validate_from (p.slug ∷ seen) ps valid.1 distinct.1,
        )
        refl

  -- The registry accepts a list of profiles, and gives it back unchanged, exactly if every profile is
  -- valid and no two share a slug.
  pub validate_agent_profiles-IsValid :
      (ps qs : List AgentProfile)
      → (validate_agent_profiles exists ps ≡ ok qs)
        ↔ ((qs ≡ ps) × All (IsValid exists) ps × IsDistinct [] ps)
  unfolding validate_agent_profiles
  validate_agent_profiles-IsValid ps qs = (
    validate_from-IsValid [] ps qs,
    λ (same, valid, distinct). IsValid-validate_from [] ps valid distinct ∙ ap ok (sym same),
  )
