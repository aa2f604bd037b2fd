-- ===== src/Prelude/Sorting.antt =====
-- SQL's `ORDER BY`: a stable insertion sort by a Boolean comparison. Ties keep the table's order,
-- one of the orders that SQL allows.
use Prim.Native.Nat.{ℕ, zero, suc}
use mathlib.Core.Path.{◌≡◌, refl, ap}
use mathlib.Core.Logic.{◌⊎◌, inl, inr}
use mathlib.Core.Bool.{Bool, true, false}
use mathlib.Core.List.{List, [], ◌∷◌, Perm}
use mathlib.Core.List.Perm
use mathlib.Core.Option.{some, some-injective}
use native.Mathlib.Omega.{arith}
use agent_sam.Prelude.Tests.{if◌then◌else◌, Bool-cases}
use agent_sam.Prelude.Lists.{All, In, All-map, All-In, All-take, length, take, head?, select}

module _ {ℓ} {A : Type ℓ} (before : A → A → Bool) where
  unfoldable pub insert_ordered : A → List A → List A
  insert_ordered x [] = x ∷ []
  insert_ordered x (y ∷ ys) = if before x y then x ∷ y ∷ ys else y ∷ insert_ordered x ys

  unfoldable pub order_by : List A → List A
  unfolding insert_ordered
  order_by [] = []
  order_by (x ∷ xs) = insert_ordered x (order_by xs)

  insert_ordered-perm : (x : A) (ys : List A) → Perm (insert_ordered x ys) (x ∷ ys)
  unfolding insert_ordered
  insert_ordered-perm x [] = Perm.rfl
  insert_ordered-perm x (y ∷ ys) = elim (Bool-cases (before x y)) [
    | inl e ↦ rw e Perm.rfl
    | inr e ↦ rw e (Perm.trans (Perm.cons y (insert_ordered-perm x ys)) (Perm.swap x y ys))
  ]

  pub order_by-perm : (xs : List A) → Perm (order_by xs) xs
  unfolding order_by
  order_by-perm [] = Perm.rfl
  order_by-perm (x ∷ xs) =
      Perm.trans (insert_ordered-perm x (order_by xs)) (Perm.cons x (order_by-perm xs))

  insert_ordered-All {κ} :
      (P : A → Type κ) (x : A) (ys : List A) → P x → All P ys → All P (insert_ordered x ys)
  unfolding insert_ordered
  insert_ordered-All P x [] h hs = (h, tt)
  insert_ordered-All P x (y ∷ ys) h hs = elim (Bool-cases (before x y)) [
    | inl e ↦ rw e (h, hs)
    | inr e ↦ rw e (hs.0, insert_ordered-All P x ys h hs.1)
  ]

  pub order_by-All {κ} : (P : A → Type κ) (xs : List A) → All P xs → All P (order_by xs)
  unfolding order_by
  order_by-All P [] h = tt
  order_by-All P (x ∷ xs) h = insert_ordered-All P x (order_by xs) h.0 (order_by-All P xs h.1)

  insert_ordered-All_inv {κ} :
      (P : A → Type κ) (x : A) (ys : List A) → All P (insert_ordered x ys) → P x × All P ys
  unfolding insert_ordered
  insert_ordered-All_inv P x [] h = h
  insert_ordered-All_inv P x (y ∷ ys) h = elim (Bool-cases (before x y)) [
    | inl e ↦ rw (e, insert_ordered) at h
    | inr e ↦
        let k : All P (y ∷ insert_ordered x ys) = rw (e, insert_ordered) at h in
        let (px, rest) = insert_ordered-All_inv P x ys k.1 in (px, (k.0, rest))
  ]

  pub order_by-All_inv {κ} : (P : A → Type κ) (xs : List A) → All P (order_by xs) → All P xs
  unfolding order_by
  order_by-All_inv P [] h = tt
  order_by-All_inv P (x ∷ xs) h =
      let (px, rest) = insert_ordered-All_inv P x (order_by xs) h in
      (px, order_by-All_inv P xs rest)

  insert_ordered-first :
      (x : A) (ys : List A) → All (λ y. before x y ≡ true) ys → insert_ordered x ys ≡ x ∷ ys
  unfolding insert_ordered
  insert_ordered-first x [] h = refl
  insert_ordered-first x (y ∷ ys) h = rw h.0 refl

  -- What comes before all others is the first of the order.
  pub head?-order_by-first :
      (x : A) (xs : List A) → All (λ y. before x y ≡ true) xs → head? (order_by (x ∷ xs)) ≡ some x
  unfolding order_by
  head?-order_by-first x xs h =
      ap head? (insert_ordered-first x (order_by xs) (order_by-All (λ y. before x y ≡ true) xs h))

  abbrev pub IsOrdered : List A → Type 0
  IsOrdered [] = Unit
  IsOrdered (x ∷ xs) = All (λ y. before x y ≡ true) xs × IsOrdered xs

  pub record IsOrder : Type ℓ where
    pub total : (x y : A) → before x y ≡ false → before y x ≡ true
    pub trans : (x y z : A) → before x y ≡ true → before y z ≡ true → before x z ≡ true

  module _ (o : IsOrder) where
    All-before :
        (x y : A) (ys : List A)
        → before x y ≡ true
        → All (λ z. before y z ≡ true) ys
        → All (λ z. before x z ≡ true) ys
    All-before x y [] h hs = tt
    All-before x y (z ∷ ys) h hs = (o.trans x y z h hs.0, All-before x y ys h hs.1)

    insert_ordered-IsOrdered :
        (x : A) (ys : List A) → IsOrdered ys → IsOrdered (insert_ordered x ys)
    unfolding insert_ordered
    insert_ordered-IsOrdered x [] h = (tt, tt)
    insert_ordered-IsOrdered x (y ∷ ys) h = elim (Bool-cases (before x y)) [
      | inl e ↦ rw e ((e, All-before x y ys e h.0), h)
      | inr e ↦ rw e (
        insert_ordered-All (λ z. before y z ≡ true) x ys (o.total x y e) h.0,
        insert_ordered-IsOrdered x ys h.1,
      )
    ]

    pub order_by-IsOrdered : (xs : List A) → IsOrdered (order_by xs)
    unfolding order_by
    order_by-IsOrdered [] = tt
    order_by-IsOrdered (x ∷ xs) = insert_ordered-IsOrdered x (order_by xs) (order_by-IsOrdered xs)

module _ {A : Type 0} (before : A → A → Bool) where
  abbrev IsOrderedAfter : A → List A → Type 0
  IsOrderedAfter x xs = All (λ y. before x y ≡ true) xs

  insert_ordered-In :
      (x : A) (ys : List A) (a : A) → In a (insert_ordered before x ys) → (a ≡ x) ⊎ In a ys
  unfolding insert_ordered
  insert_ordered-In x [] a m = m
  insert_ordered-In x (y ∷ ys) a m = ground (arith, insert_ordered-In x ys a)

  pub order_by-In : (xs : List A) (a : A) → In a (order_by before xs) → In a xs
  unfolding order_by
  order_by-In [] a m = m
  order_by-In (x ∷ xs) a m = elim (insert_ordered-In x (order_by before xs) a m) [
    | inl e ↦ inl e
    | inr n ↦ inr (order_by-In xs a n)
  ]

  -- The first of the selected entries comes before all that are selected.
  pub head?-select-order :
      IsOrder before
      → ((x : A) → before x x ≡ true)
      → (p : A → Bool) (xs : List A) (a : A) → IsOrdered before xs
      → head? (select p xs) ≡ some a
      → All (λ x. p x ≡ true → before a x ≡ true) xs
  head?-select-order o same p [] a s h = tt
  head?-select-order o same p (x ∷ xs) a s h = elim (Bool-cases (p x)) [
    | inl e ↦
        let first : x ≡ a = some-injective x a (rw (e, select, head?) at h) in
        (
          λ _. rw (← first) (same x),
          All-map (λ y. before x y ≡ true) (λ y. p y ≡ true → before a y ≡ true) xs
              (λ y b _. rw (← first) b) s.0,
        )
    | inr e ↦ (λ t. cc, head?-select-order o same p xs a s.1 (rw (e, select) at h))
  ]

  In-insert_ordered :
      (x : A) (ys : List A) (a : A) → (a ≡ x) ⊎ In a ys → In a (insert_ordered before x ys)
  unfolding insert_ordered
  In-insert_ordered x [] a m = m
  In-insert_ordered x (y ∷ ys) a m = ground (arith, In-insert_ordered x ys a)

  pub In-order_by : (xs : List A) (a : A) → In a xs → In a (order_by before xs)
  unfolding order_by
  In-order_by [] a m = m
  In-order_by (x ∷ xs) a (inl e) = In-insert_ordered x (order_by before xs) a (inl e)
  In-order_by (x ∷ xs) a (inr m) =
      In-insert_ordered x (order_by before xs) a (inr (In-order_by xs a m))

  pub IsOrdered-take : (n : ℕ) (xs : List A) → IsOrdered before xs → IsOrdered before (take n xs)
  IsOrdered-take zero xs s = tt
  IsOrdered-take (suc n) [] s = tt
  IsOrdered-take (suc n) (x ∷ xs) s = (All-take _ n xs s.0, IsOrdered-take n xs s.1)

  -- What `LIMIT` cuts off stands behind all that it keeps.
  pub In-take :
      (n : ℕ) (xs : List A) (a : A)
      → IsOrdered before xs
      → In a xs
      → In a (take n xs) ⊎ ((length (take n xs) ≡ n) × All (λ y. before y a ≡ true) (take n xs))
  In-take zero xs a s m = inr (refl, tt)
  In-take (suc n) [] a s m = absurd m
  In-take (suc n) (x ∷ xs) a s (inl e) = inl (inl e)
  In-take (suc n) (x ∷ xs) a s (inr m) = elim (In-take n xs a s.1 m) [
    | inl i ↦ inl (inr i)
    | inr (full, ahead) ↦ inr (omega arith, (All-In _ xs a s.0 m, ahead))
  ]
