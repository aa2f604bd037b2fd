-- ===== src/Skills/Definition/Normalized.antt =====
-- What the normalized fields of a definition look like.
use agent_sam.Prelude.{
  ℕ, zero, suc, ◌<◌, String, true, false, List, [], ◌∷◌, contains, All, length, ◌≡◌, refl, subst,
  inl, inr, ◌==◌, nat_eq, string_eq, strip, arith, Bool-cases, Outcome, ok, ◌>>=◌, >>=-eq-ok,
  ok-injective, pos, negsuc, option_eq,
}
use agent_sam.Skills.Yaml.{
  Value, null, bool, int, float, text, other, seq, dict, Values, nil, cons, get_key,
  is_serializable,
}
use agent_sam.Skills.Definition.{
  SkillDefinition, is_skill_name, is_named, normalize_required_string, normalize_strings,
  normalize_string_list, normalize_input, normalize_each, normalize_inputs, normalize_step,
  normalize_procedure, normalize_version, coerce_json_value,
}

abbrev pub IsFilled : String → Type 0
IsFilled s = (s == "") ≡ false

abbrev pub IsDistinct : List String → Type 0
IsDistinct [] = Unit
IsDistinct (x ∷ xs) = (contains xs x ≡ false) × IsDistinct xs

-- Texts with more than white space, none of them twice.
abbrev pub IsTextList : List String → Type 0
IsTextList xs = All IsFilled xs × IsDistinct xs

abbrev pub IsInput : Value → Type 0
IsInput (dict fields) = is_named (get_key "name" fields) ≡ true
IsInput _ = ⊥

abbrev pub IsStep : Value → Type 0
IsStep (text s) = IsFilled s
IsStep (dict fields) = Unit
IsStep _ = ⊥

pub record IsWellformed (d : SkillDefinition) : Type 0 where
  pub named : is_skill_name d.name ≡ true
  pub versioned : 0 < d.version
  pub described : IsFilled d.description
  pub triggers : IsTextList d.triggers
  pub tools_allowed : IsTextList d.tools_allowed
  pub risk_notes : IsTextList d.risk_notes
  pub failure_modes : IsTextList d.failure_modes
  pub evaluation_checklist : IsTextList d.evaluation_checklist
  pub inputs : All IsInput d.inputs
  pub procedure : All IsStep d.procedure
  pub has_step : 0 < length d.procedure

pub normalize_required_string-IsFilled :
    (v : Value) (s : String) → normalize_required_string v ≡ ok s → IsFilled s
unfolding normalize_required_string
normalize_required_string-IsFilled (text t) s h = elim (Bool-cases (strip t == "")) [
  | inl e ↦ let bad = rw e at h in cc
  | inr e ↦
      let same : ok (strip t) ≡ ok s = rw e at h in
      subst (λ u. (u == "") ≡ false) (ok-injective _ _ same) e
]
normalize_required_string-IsFilled null s h = cc
normalize_required_string-IsFilled (bool b) s h = cc
normalize_required_string-IsFilled (int n) s h = cc
normalize_required_string-IsFilled (float t) s h = cc
normalize_required_string-IsFilled (other t) s h = cc
normalize_required_string-IsFilled (seq items) s h = cc
normalize_required_string-IsFilled (dict fields) s h = cc

-- A list without an item does not contain it, and the other way round.
pub contains-All_other :
    (c : String) (seen xs : List String)
    → All (λ x. contains (c ∷ seen) x ≡ false) xs
    → (contains xs c ≡ false) × All (λ x. contains seen x ≡ false) xs
contains-All_other c seen [] h = (refl, tt)
contains-All_other c seen (x ∷ xs) (fresh, later) =
    let (none_is, rest) = contains-All_other c seen xs later in
    (ground (arith, string_eq.beq_iff c x, string_eq.beq_iff x c), (ground arith, rest))

pub normalize_strings-IsTextList :
    (seen : List String) (items : Values) (xs : List String)
    → normalize_strings seen items ≡ ok xs
    → IsTextList xs × All (λ x. contains seen x ≡ false) xs
unfolding normalize_strings
normalize_strings-IsTextList seen nil xs h =
    subst (λ l. IsTextList l × All (λ x. contains seen x ≡ false) l) (ok-injective [] xs h)
      ((tt, tt), tt)
normalize_strings-IsTextList seen (cons v rest) xs h =
    let (c, cleaned, after) = >>=-eq-ok (normalize_required_string v) _ h in
    elim (Bool-cases (contains seen c)) [
      | inl e ↦ normalize_strings-IsTextList seen rest xs (rw e at after)
      | inr e ↦
          let kept : (normalize_strings (c ∷ seen) rest >>= λ later. ok (c ∷ later)) ≡ ok xs =
            rw e at after in
          let (later, read, same) =
            >>=-eq-ok (normalize_strings (c ∷ seen) rest) (λ l. ok (c ∷ l)) kept in
          let ((filled, distinct), fresh) =
            normalize_strings-IsTextList (c ∷ seen) rest later read in
          let (alone, others) = contains-All_other c seen later fresh in
          subst (λ l. IsTextList l × All (λ x. contains seen x ≡ false) l) (ok-injective _ _ same)
            (
              ((normalize_required_string-IsFilled v c cleaned, filled), (alone, distinct)),
              (e, others),
            )
    ]

pub normalize_string_list-IsTextList :
    (v : Value) (xs : List String) → normalize_string_list v ≡ ok xs → IsTextList xs
unfolding normalize_string_list
normalize_string_list-IsTextList (seq items) xs h = (normalize_strings-IsTextList [] items xs h).0
normalize_string_list-IsTextList (text t) s h = cc
normalize_string_list-IsTextList null s h = cc
normalize_string_list-IsTextList (bool b) s h = cc
normalize_string_list-IsTextList (int n) s h = cc
normalize_string_list-IsTextList (float t) s h = cc
normalize_string_list-IsTextList (other t) s h = cc
normalize_string_list-IsTextList (dict fields) s h = cc

pub normalize_each-All :
    (P : Value → Type 0) (f : Value → Outcome Value)
    → ((v w : Value) → f v ≡ ok w → P w)
    → (items : Values) (xs : List Value) → normalize_each f items ≡ ok xs
    → All P xs
unfolding normalize_each
normalize_each-All P f holds nil xs h = subst (All P) (ok-injective _ _ h) tt
normalize_each-All P f holds (cons v rest) xs h =
    let (w, first, after) = >>=-eq-ok (f v) _ h in
    let (later, read, same) = >>=-eq-ok (normalize_each f rest) _ after in
    subst (All P) (ok-injective _ _ same)
      (holds v w first, normalize_each-All P f holds rest later read)

pub normalize_input-IsInput : (v w : Value) → normalize_input v ≡ ok w → IsInput w
unfolding normalize_input
normalize_input-IsInput (dict fields) w h =
    let (u, coerced, after) = >>=-eq-ok (coerce_json_value (dict fields)) _ h in
    elim (Bool-cases (is_named (get_key "name" fields))) [
      | inl e ↦
          let same : ok (dict fields) ≡ ok w = rw e at after in
          subst IsInput (ok-injective _ _ same) e
      | inr e ↦ let bad = rw e at after in cc
    ]
normalize_input-IsInput (text t) s h = cc
normalize_input-IsInput null s h = cc
normalize_input-IsInput (bool b) s h = cc
normalize_input-IsInput (int n) s h = cc
normalize_input-IsInput (float t) s h = cc
normalize_input-IsInput (other t) s h = cc
normalize_input-IsInput (seq items) s h = cc

pub normalize_inputs-All :
    (v : Value) (xs : List Value) → normalize_inputs v ≡ ok xs → All IsInput xs
unfolding normalize_inputs
normalize_inputs-All (seq items) xs h =
    normalize_each-All IsInput normalize_input normalize_input-IsInput items xs h
normalize_inputs-All (text t) s h = cc
normalize_inputs-All null s h = cc
normalize_inputs-All (bool b) s h = cc
normalize_inputs-All (int n) s h = cc
normalize_inputs-All (float t) s h = cc
normalize_inputs-All (other t) s h = cc
normalize_inputs-All (dict fields) s h = cc

pub normalize_step-IsStep : (v w : Value) → normalize_step v ≡ ok w → IsStep w
unfolding normalize_step coerce_json_value
normalize_step-IsStep (text s) w h =
    let (t, cleaned, same) = >>=-eq-ok (normalize_required_string (text s)) _ h in
    subst IsStep (ok-injective _ _ same) (normalize_required_string-IsFilled (text s) t cleaned)
normalize_step-IsStep (dict fields) w h = elim (Bool-cases (is_serializable (dict fields))) [
  | inl e ↦
      let same : ok (dict fields) ≡ ok w = rw e at h in subst IsStep (ok-injective _ _ same) tt
  | inr e ↦ let bad = rw e at h in cc
]
normalize_step-IsStep null s h = cc
normalize_step-IsStep (bool b) s h = cc
normalize_step-IsStep (int n) s h = cc
normalize_step-IsStep (float t) s h = cc
normalize_step-IsStep (other t) s h = cc
normalize_step-IsStep (seq items) s h = cc

pub normalize_procedure-All :
    (v : Value) (xs : List Value) → normalize_procedure v ≡ ok xs → All IsStep xs × (0 < length xs)
unfolding normalize_procedure
normalize_procedure-All (seq (cons v rest)) xs h =
    let (w, first, after) = >>=-eq-ok (normalize_step v) _ (unfold normalize_each in h) in
    let (later, read, same) = >>=-eq-ok (normalize_each normalize_step rest) _ after in
    let each = normalize_each-All IsStep normalize_step normalize_step-IsStep (cons v rest) xs h in
    (each, subst (λ l. 0 < length l) (ok-injective _ _ same) (omega arith))
normalize_procedure-All (seq nil) xs h = cc
normalize_procedure-All (text t) s h = cc
normalize_procedure-All null s h = cc
normalize_procedure-All (bool b) s h = cc
normalize_procedure-All (int n) s h = cc
normalize_procedure-All (float t) s h = cc
normalize_procedure-All (other t) s h = cc
normalize_procedure-All (dict fields) s h = cc

pub normalize_version-pos : (v : Value) (n : ℕ) → normalize_version v ≡ ok n → 0 < n
unfolding normalize_version
normalize_version-pos (int (pos (suc k))) n h =
    subst (λ m. 0 < m) (ok-injective _ _ h) (omega arith)
normalize_version-pos (int (pos zero)) n h = cc
normalize_version-pos (int (negsuc k)) n h = cc
normalize_version-pos (bool true) n h = subst (λ m. 0 < m) (ok-injective _ _ h) (omega arith)
normalize_version-pos (bool false) n h = cc
normalize_version-pos (text t) s h = cc
normalize_version-pos null s h = cc
normalize_version-pos (float t) s h = cc
normalize_version-pos (other t) s h = cc
normalize_version-pos (seq items) s h = cc
normalize_version-pos (dict fields) s h = cc
