-- ===== src/Prelude/Errors.antt =====
-- Python's exceptions as values, with `do`.
use Prim.Native.String.{String, ◌++◌ as ◌<>◌}
use mathlib.Core.Path.{◌≡◌, refl}
use mathlib.Core.Logic.{◌⊎◌, inl, inr}
use agent_sam.Prelude.Tests.{if◌then◌else◌}
use mathlib.Core.Bool.{Bool, true, false}

pub data Exception : Type 0 where
  value_error key_error file_not_found_error file_patch_error index_error : String → Exception
  workspace_boundary_error policy_violation_error configuration_error integrity_error stop_iteration
        runtime_error type_error attribute_error :
      String → Exception

pub data Outcome {ℓ} (A : Type ℓ) : Type ℓ where
  ok : A → Outcome A
  raise : Exception → Outcome A

infixl 5 ◌>>=◌ ◌>>◌
abbrev pub ◌>>=◌ {ℓ κ} : {A : Type ℓ} {B : Type κ} → Outcome A → (A → Outcome B) → Outcome B
raise x >>= next = raise x
ok v >>= next = next v

abbrev pub ◌>>◌ {ℓ κ} : {A : Type κ} {B : Type ℓ} → Outcome A → Outcome B → Outcome B
m >> k = m >>= λ _. k

-- `if not test: raise e`
abbrev pub require : Bool → Exception → Outcome (Unit {0})
require true e = ok tt
require false e = raise e

-- Inversion of a successful bind.
pub >>=-eq-ok {κ ℓ} :
    {B : Type κ} {A : Type ℓ} (m : Outcome B) (next : B → Outcome A) {result : A}
    → (m >>= next) ≡ ok result
    → (v : B) × (m ≡ ok v) × (next v ≡ ok result)
>>=-eq-ok (raise x) next h = cc
>>=-eq-ok (ok v) next h = (v, refl, h)

pub Outcome-cases {ℓ} :
    {A : Type ℓ} (m : Outcome A) → ((a : A) × (m ≡ ok a)) ⊎ ((e : Exception) × (m ≡ raise e))
Outcome-cases (ok a) = inl (a, refl)
Outcome-cases (raise e) = inr (e, refl)

pub ok-injective {ℓ} : {A : Type ℓ} (a b : A) → ok a ≡ ok b → a ≡ b
ok-injective a b h = cc

-- Inversion of a guard that let the call go on.
pub guarded-ok {ℓ} :
    {A : Type ℓ} (b : Bool) (m : Outcome A) (e : Exception) {x : A}
    → (if b then m else raise e) ≡ ok x
    → (b ≡ true) × (m ≡ ok x)
guarded-ok true m e h = (refl, h)
guarded-ok false m e h = cc

-- `type(e).__name__` and `str(e)`
abbrev pub exception_name : Exception → String
exception_name (value_error text) = "ValueError"
exception_name (key_error text) = "KeyError"
exception_name (file_patch_error text) = "FilePatchError"
exception_name (file_not_found_error text) = "FileNotFoundError"
exception_name (index_error text) = "IndexError"
exception_name (workspace_boundary_error text) = "WorkspaceBoundaryError"
exception_name (policy_violation_error text) = "PolicyViolationError"
exception_name (configuration_error text) = "ConfigurationError"
exception_name (integrity_error text) = "IntegrityError"
exception_name (stop_iteration text) = "StopIteration"
exception_name (runtime_error text) = "RuntimeError"
exception_name (type_error text) = "TypeError"
exception_name (attribute_error text) = "AttributeError"

abbrev pub exception_text : Exception → String
exception_text (value_error text) = text
exception_text (key_error text) = "'" <> (text <> "'")
exception_text (file_patch_error text) = text
exception_text (file_not_found_error text) = text
exception_text (index_error text) = text
exception_text (workspace_boundary_error text) = text
exception_text (policy_violation_error text) = text
exception_text (configuration_error text) = text
exception_text (integrity_error text) = text
exception_text (stop_iteration text) = text
exception_text (runtime_error text) = text
exception_text (type_error text) = text
exception_text (attribute_error text) = text
