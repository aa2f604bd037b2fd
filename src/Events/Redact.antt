-- ===== src/Events/Redact.antt =====
-- db/repositories.py: `_redact_secret_data`. The replacement in texts, `SECRET_VALUE_RE.sub`, is an
-- argument.
use agent_sam.Prelude.{
  String, Bool, true, false, List, [], ◌∷◌, any, if◌then◌else◌, lower, is_in, Json, null, bool, num,
  str, arr, obj, Items, nil, cons, Fields, end, field, ◌≡◌, refl, nat_eq, string_eq, option_eq,
}

-- The words of SENSITIVE_KEY_RE, with and without `_` or `-`.
abbrev pub sensitive_words : List String
sensitive_words =
    "apikey" ∷ "api_key" ∷ "api-key" ∷ "accesstoken" ∷ "access_token" ∷ "access-token" ∷ "token"
    ∷ "password" ∷ "secret" ∷ []

unfoldable pub is_sensitive : String → Bool
is_sensitive key = any (λ word. is_in word (lower key)) sensitive_words

abbrev pub redacted : Json
redacted = str "[REDACTED]"

module _ (sub : String → String) where
  unfoldable mutual
    pub redact_secret_data : Json → Json
    redact_secret_data null = null
    redact_secret_data (bool b) = bool b
    redact_secret_data (num n) = num n
    redact_secret_data (str s) = str (sub s)
    redact_secret_data (arr items) = arr (redact_items items)
    redact_secret_data (obj fields) = obj (redact_fields fields)

    pub redact_items : Items → Items
    redact_items nil = nil
    redact_items (cons v rest) = cons (redact_secret_data v) (redact_items rest)

    pub redact_fields : Fields → Fields
    redact_fields end = end
    redact_fields (field key v rest) =
        let kept = redact_secret_data v in
        field key (if is_sensitive key then redacted else kept) (redact_fields rest)

  -- The value is a redaction of the first: under a sensitive key stands nothing but the mark, every
  -- other text has been through the replacement, and the rest is as it was.
  unfoldable mutual
    pub IsRedaction : Json → Json → Type 0
    IsRedaction null v = v ≡ null
    IsRedaction (bool b) v = v ≡ bool b
    IsRedaction (num n) v = v ≡ num n
    IsRedaction (str s) v = v ≡ str (sub s)
    IsRedaction (arr items) v = (items' : Items) × (v ≡ arr items') × AreRedactions items items'
    IsRedaction (obj fields) v =
        (fields' : Fields) × (v ≡ obj fields') × HaveRedactions fields fields'

    pub AreRedactions : Items → Items → Type 0
    AreRedactions nil others = others ≡ nil
    AreRedactions (cons v rest) others =
        (w : Json) × (rest' : Items) × (others ≡ cons w rest')
        × IsRedaction v w
        × AreRedactions rest rest'

    pub HaveRedactions : Fields → Fields → Type 0
    HaveRedactions end others = others ≡ end
    HaveRedactions (field key v rest) others =
        (w : Json) × (rest' : Fields) × (others ≡ field key w rest')
        × (is_sensitive key ≡ true → w ≡ redacted)
        × (is_sensitive key ≡ false → IsRedaction v w)
        × HaveRedactions rest rest'

  mutual
    unfolding redact_secret_data IsRedaction is_sensitive

    pub redact_secret_data-IsRedaction : (v : Json) → IsRedaction v (redact_secret_data v)
    redact_secret_data-IsRedaction null = refl
    redact_secret_data-IsRedaction (bool b) = refl
    redact_secret_data-IsRedaction (num n) = refl
    redact_secret_data-IsRedaction (str s) = refl
    redact_secret_data-IsRedaction (arr items) =
        (redact_items items, refl, redact_items-AreRedactions items)
    redact_secret_data-IsRedaction (obj fields) =
        (redact_fields fields, refl, redact_fields-HaveRedactions fields)

    redact_items-AreRedactions : (items : Items) → AreRedactions items (redact_items items)
    redact_items-AreRedactions nil = refl
    redact_items-AreRedactions (cons v rest) = (
      redact_secret_data v,
      redact_items rest,
      refl,
      redact_secret_data-IsRedaction v,
      redact_items-AreRedactions rest,
    )

    redact_fields-HaveRedactions : (fields : Fields) → HaveRedactions fields (redact_fields fields)
    redact_fields-HaveRedactions end = refl
    redact_fields-HaveRedactions (field key v rest) = (
      if is_sensitive key then redacted else redact_secret_data v,
      redact_fields rest,
      refl,
      (λ e. rw e refl),
      (λ e. rw e (redact_secret_data-IsRedaction v)),
      redact_fields-HaveRedactions rest,
    )
