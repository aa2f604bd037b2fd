-- ===== src/Events/Journal.antt =====
-- The events of a run as a journal.
use agent_sam.Prelude.{
  ℕ, ◌+◌, ◌≤◌, ◌<◌, String, Bool, true, none, some, List, [], ◌∷◌, ◌++◌, select, order_by,
  insert_ordered, if◌then◌else◌, nat_eq, option_eq, ◌≡◌, ◌≢◌, refl, sym, ap, ◌∙◌, inl, inr, All,
  All-map, Bool-cases, some-injective, append-nil, arith, string_eq,
}
use agent_sam.Events.Redact.{IsRedaction, redact_secret_data-IsRedaction}
use agent_sam.Events.Store.{
  AgentEvent, NewEvent, in_scope, max_sequence, next_agent_event_sequence, sequence_or,
  listed_before, list_events, event_row, append_event,
}

module _ {A : Type 0} (before : A → A → Bool) where
  insert_ordered-last :
      (y x : A) (xs : List A)
      → before y x ≡ true
      → insert_ordered before y (xs ++ (x ∷ [])) ≡ insert_ordered before y xs ++ (x ∷ [])
  unfolding insert_ordered
  insert_ordered-last y x [] h = rw h refl
  insert_ordered-last y x (z ∷ xs) h = elim (Bool-cases (before y z)) [
    | inl e ↦ rw e refl
    | inr e ↦ rw e (ap (λ l. z ∷ l) (insert_ordered-last y x xs h))
  ]

  -- What comes after all stays the last.
  order_by-last :
      (xs : List A) (x : A)
      → All (λ y. before y x ≡ true) xs
      → order_by before (xs ++ (x ∷ [])) ≡ order_by before xs ++ (x ∷ [])
  unfolding order_by insert_ordered
  order_by-last [] x h = refl
  order_by-last (y ∷ xs) x h =
      ap (insert_ordered before y) (order_by-last xs x h.1)
      ∙ insert_ordered-last y x (order_by before xs) h.0

module _ {A : Type 0} (p : A → Bool) where
  select-append :
      (xs : List A) (x : A)
      → select p (xs ++ (x ∷ [])) ≡ select p xs ++ (if p x then x ∷ [] else [])
  select-append [] x = refl
  select-append (y ∷ xs) x = elim (Bool-cases (p y)) [
    | inl e ↦ rw e (ap (λ l. y ∷ l) (select-append xs x))
    | inr e ↦ rw e (select-append xs x)
  ]

max_sequence-All :
    (events : List AgentEvent) (n : ℕ) → max_sequence events ≤ n → All (λ e. e.sequence ≤ n) events
max_sequence-All [] n h = tt
max_sequence-All (e ∷ events) n h = (omega (arith, h), max_sequence-All events n (omega (arith, h)))

later_sequence : (d e : AgentEvent) → d.sequence < e.sequence → listed_before d e ≡ true
later_sequence d e h = ground arith

-- The new row of a run stands last in the list of the run, and in no other list.
run_last :
    (run : ℕ) (events : List AgentEvent) (row : AgentEvent)
    → row.agent_run_id ≡ some run
    → All (λ d. listed_before d row ≡ true) (select (in_scope none (some run)) events)
    → order_by listed_before (select (in_scope none (some run)) (events ++ (row ∷ [])))
      ≡ order_by listed_before (select (in_scope none (some run)) events) ++ (row ∷ [])
run_last run events row mine earlier =
    let here : in_scope none (some run) row ≡ true =
      (option_eq.beq_iff row.agent_run_id (some run)).1 mine in
    ap (order_by listed_before) (select-append (in_scope none (some run)) events row ∙ rw here refl)
    ∙ order_by-last listed_before (select (in_scope none (some run)) events) row earlier

run_other :
    (run other : ℕ) (events : List AgentEvent) (row : AgentEvent)
    → row.agent_run_id ≡ some run
    → other ≢ run
    → order_by listed_before (select (in_scope none (some other)) (events ++ (row ∷ [])))
      ≡ order_by listed_before (select (in_scope none (some other)) events)
run_other run other events row mine differs = elim (Bool-cases (in_scope none (some other) row)) [
  | inl e ↦
      let same : some run ≡ some other =
        sym mine ∙ (option_eq.beq_iff row.agent_run_id (some other)).0 e in
      absurd (differs (sym (some-injective run other same)))
  | inr e ↦ ap (order_by listed_before) (
      select-append (in_scope none (some other)) events row
      ∙ rw e (append-nil (select (in_scope none (some other)) events)))
]

module _ (sub : String → String) where
  -- The event log of a run is a journal. If an event of a run is appended without a sequence, then
  -- afterwards the list of the run's events is the earlier list followed by the new event, and the
  -- list of every other run is as before. The new event has the given key and time, the task, run,
  -- agent, type and parent of the given one, its text and its metadata redacted, and a sequence
  -- above those of all earlier events of the run.
  pub append_event-list_events :
      (id now run : ℕ) (e : NewEvent) (events : List AgentEvent)
      → e.agent_run_id ≡ some run
      → e.sequence ≡ none
      → (list_events none (some run) none (append_event sub id now e events).1
          ≡ list_events none (some run) none events ++ ((append_event sub id now e events).0 ∷ []))
        × ((other : ℕ)
            → other ≢ run
            → list_events none (some other) none (append_event sub id now e events).1
              ≡ list_events none (some other) none events)
        × IsRedaction sub e.metadata (append_event sub id now e events).0.metadata
        × ((append_event sub id now e events).0.content ≡ sub e.content)
        × ((append_event sub id now e events).0.event_type ≡ e.event_type)
        × ((append_event sub id now e events).0.id ≡ id)
        × ((append_event sub id now e events).0.created_at ≡ now)
        × ((append_event sub id now e events).0.task_id ≡ e.task_id)
        × ((append_event sub id now e events).0.agent_run_id ≡ e.agent_run_id)
        × ((append_event sub id now e events).0.agent_slug ≡ e.agent_slug)
        × ((append_event sub id now e events).0.parent_event_id ≡ e.parent_event_id)
        × All
            (λ d. d.sequence < (append_event sub id now e events).0.sequence)
            (select (in_scope none (some run)) events)
  unfolding list_events append_event event_row next_agent_event_sequence
  append_event-list_events id now run e events of_run unnumbered =
      let row =
        event_row sub id now
          (sequence_or e.sequence (next_agent_event_sequence e.task_id e.agent_run_id events)) e in
      let newest : row.sequence ≡ max_sequence (select (in_scope none (some run)) events) + 1 =
        rw (unnumbered, of_run) refl in
      let mine = select (in_scope none (some run)) events in
      let below : All (λ d. d.sequence ≤ max_sequence mine) mine =
        max_sequence-All mine (max_sequence mine) (omega arith) in
      (
        run_last run events row of_run (
            All-map (λ d. d.sequence ≤ max_sequence mine) (λ d. listed_before d row ≡ true) mine
              (λ d h. later_sequence d row (omega (arith, h, newest))) below),
        (λ other differs. run_other run other events row of_run differs),
        redact_secret_data-IsRedaction sub e.metadata,
        refl,
        refl,
        refl,
        refl,
        refl,
        refl,
        refl,
        refl,
        All-map (λ d. d.sequence ≤ max_sequence mine) (λ d. d.sequence < row.sequence) mine
            (λ d h. omega (arith, h, newest)) below,
      )
