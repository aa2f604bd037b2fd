-- ===== src/Skills/Yaml.antt =====
-- The values that `yaml.safe_load` returns. A float and a value of another kind (a date, a set) are
-- given by their texts; keys are texts.
use agent_sam.Prelude.{
  String, Bool, true, false, ◌&&◌, Option, none, some, List, [], ◌∷◌, ℤ, if◌then◌else◌, ◌==◌,
  string_eq,
}

mutual
  pub data Value : Type 0 where
    null : Value
    bool : Bool → Value
    int : ℤ → Value
    float : String → Value
    text : String → Value
    other : String → Value
    seq : Values → Value
    dict : Pairs → Value

  pub data Values : Type 0 where
    nil : Values
    cons : Value → Values → Values

  pub data Pairs : Type 0 where
    end : Pairs
    pair : String → Value → Pairs → Pairs

abbrev pub keys : Pairs → List String
keys end = []
keys (pair key value rest) = key ∷ keys rest

-- `payload.get(key)`
abbrev pub get_key : String → Pairs → Option Value
get_key key end = none
get_key key (pair k value rest) =
    let later = get_key key rest in if k == key then some value else later

-- `json.dumps` accepts the value.
unfoldable mutual
  pub is_serializable : Value → Bool
  is_serializable (other shown) = false
  is_serializable (seq items) = are_serializable items
  is_serializable (dict pairs) = have_serializable pairs
  is_serializable _ = true

  pub are_serializable : Values → Bool
  are_serializable nil = true
  are_serializable (cons v rest) = is_serializable v && are_serializable rest

  pub have_serializable : Pairs → Bool
  have_serializable end = true
  have_serializable (pair key v rest) = is_serializable v && have_serializable rest
