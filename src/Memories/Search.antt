-- ===== src/Memories/Search.antt =====
-- What a search finds.
use agent_sam.Prelude.{
  ℕ, zero, suc, ◌*◌, ◌≤◌, String, true, List, [], ◌∷◌, select, take, order_by, length,
  length-take_le, ◌==◌, nat_eq, option_eq, ◌≡◌, refl, sym, ap, subst, ◌∙◌, inl, inr, ◌⊎◌, In, All,
  All-take, All-intro, All-In, All-map, select-In, In-select, In-order_by, order_by-In,
  order_by-IsOrdered, IsOrdered, IsOrdered-take, IsOrdered-select, IsOrder, In-take, ok, >>=-eq-ok,
  ok-injective, Bool-cases, arith, string_eq,
}
use agent_sam.Memories.{
  Memory, MemorySearchRequest, normalize_tags, is_match, fresher, has_tags, fetched, validate_types,
  search_memories,
}

fresher-IsOrder : IsOrder fresher
fresher-IsOrder = record { total = λ m n h. ground arith; trans = λ l m n h k. ground arith }

-- What a search gives back: at most `limit` stored memories that pass the filters and carry every
-- tag, in the order of use. If no tags are asked for, every memory that passes the filters is
-- among them, unless the result is full and all of it comes before.
pub record IsFound (r : MemorySearchRequest) (memories found : List Memory) : Type 0 where
  pub short : length found ≤ r.limit
  pub ordered : IsOrdered fresher found
  pub sound :
      All
        (λ m. In m memories × (is_match r m ≡ true) × (has_tags (normalize_tags r.tags) m ≡ true))
        found
  pub complete :
      normalize_tags r.tags ≡ []
      → (m : Memory) → In m memories
      → is_match r m ≡ true
      → In m found ⊎ ((length found ≡ r.limit) × All (λ n. fresher n m ≡ true) found)

take-take : (n : ℕ) (ms : List Memory) → take n (take n ms) ≡ take n ms
take-take zero ms = refl
take-take (suc n) [] = refl
take-take (suc n) (m ∷ ms) = ap (λ l. m ∷ l) (take-take n ms)

module _ (limit : ℕ) (rows : List Memory) where
  fetched-IsOrdered :
      (tags : List String) → IsOrdered fresher rows → IsOrdered fresher (fetched tags limit rows)
  fetched-IsOrdered [] s = IsOrdered-take fresher limit rows s
  fetched-IsOrdered (t ∷ tags) s =
      IsOrdered-select fresher (has_tags (t ∷ tags)) (take (limit * 5) rows)
        (IsOrdered-take fresher (limit * 5) rows s)

  fetched-All :
      (P : Memory → Type 0) (tags : List String)
      → All P rows
      → All (λ m. P m × (has_tags tags m ≡ true)) (fetched tags limit rows)
  unfolding has_tags
  fetched-All P [] h = All-map _ _ (take limit rows) (λ m p. (p, refl)) (All-take _ limit rows h)
  fetched-All P (t ∷ tags) h =
      let some_rows = take (limit * 5) rows in
      All-intro _ (select (has_tags (t ∷ tags)) some_rows) (λ m there.
        let (among, tagged) = select-In (has_tags (t ∷ tags)) some_rows m there in
        (All-In _ some_rows m (All-take _ (limit * 5) rows h) among, tagged))

module _ (r : MemorySearchRequest) (memories : List Memory) where
  abbrev sorted : List Memory
  sorted = order_by fresher (select (is_match r) memories)

  fetched-IsFound :
      IsFound r memories (take r.limit (fetched (normalize_tags r.tags) r.limit sorted))
  fetched-IsFound =
      let in_order = order_by-IsOrdered fresher fresher-IsOrder (select (is_match r) memories) in
      let tags = normalize_tags r.tags in
      record {
        short = length-take_le r.limit (fetched tags r.limit sorted);
        ordered =
            IsOrdered-take fresher r.limit (fetched tags r.limit sorted)
              (fetched-IsOrdered r.limit sorted tags in_order);
        sound =
            All-map _ _ _ (λ m h. (h.0.0, h.0.1, h.1))
              (All-take _ r.limit (fetched tags r.limit sorted) (
                fetched-All r.limit sorted (λ m. In m memories × (is_match r m ≡ true)) tags
                  (All-intro _ sorted (λ m there.
                    select-In (is_match r) memories m
                      (order_by-In fresher (select (is_match r) memories) m there)))));
        complete = λ untagged m there passes.
            subst
              (λ found.
                In m found ⊎ ((length found ≡ r.limit) × All (λ n. fresher n m ≡ true) found))
              (sym (
                ap (λ ts. take r.limit (fetched ts r.limit sorted)) untagged
                ∙ take-take r.limit sorted))
              (In-take fresher r.limit sorted m in_order (
                In-order_by fresher (select (is_match r) memories) m
                  (In-select (is_match r) memories m there passes)));
      }

  -- A search that succeeds gives at most `limit` stored memories that pass the filters and carry
  -- every tag, in the order of use. Without tags it misses none: every memory that passes the filters
  -- is among them, unless the result is full and all of it comes before.
  pub search_memories-IsFound :
      (found : List Memory) → search_memories r memories ≡ ok found → IsFound r memories found
  unfolding search_memories
  search_memories-IsFound found e = elim (Bool-cases (r.limit == 0)) [
    | inl f ↦
        let nothing : ok [] ≡ ok found = rw f at e in
        let rows = fetched (normalize_tags r.tags) r.limit sorted in
        subst (IsFound r memories)
          (ap (λ n. take n rows) ((nat_eq.beq_iff r.limit 0).0 f) ∙ ok-injective _ _ nothing)
          fetched-IsFound
    | inr f ↦
        let (u, valid, done) = >>=-eq-ok (validate_types r.memory_types) _ (rw f at e) in
        subst (IsFound r memories) (ok-injective _ _ done) fetched-IsFound
  ]
