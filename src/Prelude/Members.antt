-- ===== src/Prelude/Members.antt =====
-- Members of filtered, mapped and sorted lists.
use mathlib.Core.Path.{◌≡◌, refl, ap}
use mathlib.Core.Logic.{inl, inr}
use mathlib.Core.Bool.{Bool, true, false}
use mathlib.Core.List.{List, [], ◌∷◌, map}
use agent_sam.Prelude.Tests.{Eq, ◌==◌, Bool-cases}
use agent_sam.Prelude.Lists.{All, In, All-intro, All-In, select, select-In, contains, all, any}
use agent_sam.Prelude.Sorting.{IsOrdered}

module _ {A : Type 0} (before : A → A → Bool) where
  pub IsOrdered-select :
      (p : A → Bool) (xs : List A) → IsOrdered before xs → IsOrdered before (select p xs)
  IsOrdered-select p [] s = tt
  IsOrdered-select p (x ∷ xs) s = elim (Bool-cases (p x)) [
    | inl e ↦ rw e (
      All-intro _ (select p xs) (λ a m. All-In _ xs a s.0 (select-In p xs a m).0),
      IsOrdered-select p xs s.1,
    )
    | inr e ↦ rw e (IsOrdered-select p xs s.1)
  ]

module _ {A : Type 0} {B : Type 0} (f : A → B) where
  pub In-map : (xs : List A) (a : A) → In a xs → In (f a) (map f xs)
  In-map [] a m = absurd m
  In-map (x ∷ xs) a (inl e) = inl (ap f e)
  In-map (x ∷ xs) a (inr m) = inr (In-map xs a m)

  pub map-In : (xs : List A) (b : B) → In b (map f xs) → (a : A) × In a xs × (b ≡ f a)
  map-In [] b m = absurd m
  map-In (x ∷ xs) b (inl e) = (x, inl refl, e)
  map-In (x ∷ xs) b (inr m) = let (a, there, e) = map-In xs b m in (a, inr there, e)

module _ {A : Type 0} ⦃eq : Eq A⦄ where
  pub contains-In : (xs : List A) (a : A) → contains xs a ≡ true → In a xs
  contains-In [] a h = cc
  contains-In (x ∷ xs) a h = elim (Bool-cases (a == x)) [
    | inl e ↦ inl ((eq.beq_iff a x).0 e)
    | inr e ↦ inr (contains-In xs a (rw e at h))
  ]

  pub In-contains : (xs : List A) (a : A) → In a xs → contains xs a ≡ true
  In-contains [] a m = absurd m
  In-contains (x ∷ xs) a (inl e) = let hit : (a == x) ≡ true = (eq.beq_iff a x).1 e in rw hit refl
  In-contains (x ∷ xs) a (inr m) = elim (Bool-cases (a == x)) [
    | inl e ↦ rw e refl
    | inr e ↦ rw e (In-contains xs a m)
  ]

module _ {A : Type 0} (p : A → Bool) where
  pub all-All : (xs : List A) → all p xs ≡ true → All (λ x. p x ≡ true) xs
  all-All [] h = tt
  all-All (x ∷ xs) h = elim (Bool-cases (p x)) [
    | inl e ↦ (e, all-All xs (rw e at h))
    | inr e ↦ let bad : false ≡ true = rw e at h in cc
  ]

  pub All-all : (xs : List A) → All (λ x. p x ≡ true) xs → all p xs ≡ true
  All-all [] h = refl
  All-all (x ∷ xs) h = rw h.0 (All-all xs h.1)

  pub any-false_All : (xs : List A) → any p xs ≡ false → All (λ x. p x ≡ false) xs
  any-false_All [] h = tt
  any-false_All (x ∷ xs) h = elim (Bool-cases (p x)) [
    | inl e ↦ let bad : true ≡ false = rw e at h in cc
    | inr e ↦ (e, any-false_All xs (rw e at h))
  ]

  pub All-any-false : (xs : List A) → All (λ x. p x ≡ false) xs → any p xs ≡ false
  All-any-false [] h = refl
  All-any-false (x ∷ xs) h = rw h.0 (All-any-false xs h.1)
