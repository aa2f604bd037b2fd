-- ===== src/Runtime/Noted.antt =====
-- What starting a run notes in the task's metadata, and the attempt that the run belongs to.
use agent_sam.Prelude.{
  ℕ, ◌≤◌, String, Bool, true, false, Option, none, some, List, [], ◌∷◌, select, select-In,
  All-of_select, Option-cases, order_by, order_by-In, order_by-All_inv, order_by-IsOrdered,
  IsOrdered, IsOrder, head?, leb, ◌≡◌, ◌≢◌, refl, sym, subst, ◌∙◌, inl, inr, In, All, All-map, ◌==◌,
  nat_eq, string_eq, if◌then◌else◌, arith, some-injective, option_eq,
}
use agent_sam.Database.{TaskRun}
use agent_sam.Budget.{set_key, update_metadata}
use agent_sam.Runtime.{RoutedTask, AgentRun, run_key, last_task_run}

-- The text of an entry.
abbrev pub get_entry : String → List (String × String) → Option String
get_entry key [] = none
get_entry key (entry ∷ entries) = if entry.0 == key then some entry.1 else get_entry key entries

get_entry-set_key_same :
    (key value : String) (entries : List (String × String))
    → get_entry key (set_key key value entries) ≡ some value
get_entry-set_key_same key value [] = ground (arith, string_eq.beq_iff key key)
get_entry-set_key_same key value (entry ∷ entries) =
    ground (arith, get_entry-set_key_same key value entries, string_eq.beq_iff key key)

get_entry-set_key_other :
    (other key value : String) (entries : List (String × String))
    → key ≢ other
    → get_entry other (set_key key value entries) ≡ get_entry other entries
get_entry-set_key_other other key value [] n = ground (arith, string_eq.beq_iff key other)
get_entry-set_key_other other key value (entry ∷ entries) n = ground (
  arith,
  get_entry-set_key_other other key value entries n,
  string_eq.beq_iff key other,
  string_eq.beq_iff entry.0 key,
  string_eq.beq_iff entry.0 other,
)

-- Entries of other keys stay.
get_entry-update_metadata :
    (key : String) (entries old : List (String × String))
    → All (λ e. e.0 ≢ key) entries
    → get_entry key (update_metadata entries old) ≡ get_entry key old
get_entry-update_metadata key [] old n = refl
get_entry-update_metadata key (e ∷ entries) old n =
    get_entry-update_metadata key entries (set_key e.0 e.1 old) n.1
    ∙ get_entry-set_key_other key e.0 e.1 old n.0

differ : (s t : String) → (s == t) ≡ false → s ≢ t
differ s t e same = let bad : false ≡ true = sym e ∙ (string_eq.beq_iff s t).1 same in cc

abbrev pub routing_keys : List String
routing_keys = "routed_agent" ∷ "routed_model" ∷ "routing_reason" ∷ "estimated_cost" ∷ []

-- The task has the agent, the model, the reason and the cost of its run in its metadata, beside its
-- other entries, and is the same in all else.
abbrev pub IsNoted : (ℕ → String) → RoutedTask → AgentRun → RoutedTask → Type 0
IsNoted cost_text t run noted =
    (noted ≡ record t { metadata = noted.metadata })
    × (get_entry "routed_agent" noted.metadata ≡ some run.agent_slug)
    × (get_entry "routed_model" noted.metadata ≡ some run.model)
    × (get_entry "routing_reason" noted.metadata ≡ some run.routing_reason)
    × (get_entry "estimated_cost" noted.metadata ≡ some (cost_text run.cost_estimate))
    × ((key : String)
        → All (λ k. k ≢ key) routing_keys
        → get_entry key noted.metadata ≡ get_entry key t.metadata)

-- The entries of four keys, set one after the other.
pub four_entries :
    (a b c d : String) (old : List (String × String))
    → let entries : List (String × String) =
        ("routed_agent", a)
        ∷ ("routed_model", b)
        ∷ ("routing_reason", c)
        ∷ ("estimated_cost", d)
        ∷ [] in
      let new = update_metadata entries old in
      (get_entry "routed_agent" new ≡ some a)
      × (get_entry "routed_model" new ≡ some b)
      × (get_entry "routing_reason" new ≡ some c)
      × (get_entry "estimated_cost" new ≡ some d)
      × ((key : String) → All (λ k. k ≢ key) routing_keys → get_entry key new ≡ get_entry key old)
four_entries a b c d old =
    let m1 = set_key "routed_agent" a old in
    let m2 = set_key "routed_model" b m1 in
    let m3 = set_key "routing_reason" c m2 in
    (
      get_entry-update_metadata "routed_agent"
            (("routed_model", b) ∷ ("routing_reason", c) ∷ ("estimated_cost", d) ∷ []) m1
            (differ _ _ refl, (differ _ _ refl, (differ _ _ refl, tt)))
          ∙ get_entry-set_key_same "routed_agent" a old,
      get_entry-update_metadata "routed_model" (("routing_reason", c) ∷ ("estimated_cost", d) ∷ [])
            m2 (differ _ _ refl, (differ _ _ refl, tt))
          ∙ get_entry-set_key_same "routed_model" b m1,
      get_entry-update_metadata "routing_reason" (("estimated_cost", d) ∷ []) m3
            (differ _ _ refl, tt)
          ∙ get_entry-set_key_same "routing_reason" c m2,
      get_entry-set_key_same "estimated_cost" d m3,
      λ key n.
          get_entry-update_metadata key
            (("routed_agent", a)
              ∷ ("routed_model", b)
              ∷ ("routing_reason", c)
              ∷ ("estimated_cost", d)
              ∷ [])
            old (n.0, (n.1.0, (n.1.1.0, (n.1.1.1.0, tt)))),
    )

abbrev later_first : TaskRun → TaskRun → Bool
later_first r s = leb s.attempt_number r.attempt_number

later_first-IsOrder : IsOrder later_first
later_first-IsOrder = record { total = λ x y e. ground arith; trans = λ x y z e f. ground arith }

head-first :
    (r : TaskRun) (runs : List TaskRun)
    → IsOrdered later_first runs
    → head? runs ≡ some r
    → In r runs × All (λ q. q.attempt_number ≤ r.attempt_number) runs
head-first r [] ordered e = cc
head-first r (x ∷ runs) ordered e =
    let same : x ≡ r = some-injective x r e in
    subst (λ y. In y (x ∷ runs) × All (λ q. q.attempt_number ≤ y.attempt_number) (x ∷ runs)) same
      (
        inl refl,
        (
          ground arith,
          All-map (λ q. later_first x q ≡ true) (λ q. q.attempt_number ≤ x.attempt_number) runs
              (λ q f. ground arith) ordered.0,
        ),
      )

last_task_run-first :
    (task_id : ℕ) (runs : List TaskRun) (r : TaskRun)
    → last_task_run task_id runs ≡ some r
    → In r runs
      × (r.task_id ≡ task_id)
      × All (λ q. q.task_id ≡ task_id → q.attempt_number ≤ r.attempt_number) runs
unfolding last_task_run
last_task_run-first task_id runs r e =
    let mine = select (λ q. q.task_id == task_id) runs in
    let (m, first) =
      head-first r (order_by later_first mine)
        (order_by-IsOrdered later_first later_first-IsOrder mine) e in
    let (stored, is_mine) =
      select-In (λ q. q.task_id == task_id) runs r (order_by-In later_first mine r m) in
    (
      stored,
      (nat_eq.beq_iff r.task_id task_id).0 is_mine,
      All-map (λ q. (q.task_id == task_id) ≡ true → q.attempt_number ≤ r.attempt_number)
          (λ q. q.task_id ≡ task_id → q.attempt_number ≤ r.attempt_number) runs
          (λ q f same. f ((nat_eq.beq_iff q.task_id task_id).1 same))
          (All-of_select (λ q. q.attempt_number ≤ r.attempt_number) (λ q. q.task_id == task_id) runs
            (order_by-All_inv later_first (λ q. q.attempt_number ≤ r.attempt_number) mine first)),
    )

pub last_task_run-key :
    (task_id : ℕ) (runs : List TaskRun) (key : ℕ)
    → run_key (last_task_run task_id runs) ≡ some key
    → (r : TaskRun) × (r.id ≡ key)
      × In r runs
      × (r.task_id ≡ task_id)
      × All (λ q. q.task_id ≡ task_id → q.attempt_number ≤ r.attempt_number) runs
last_task_run-key task_id runs key e = elim (Option-cases (last_task_run task_id runs)) [
  | inl f ↦ let bad : none ≡ some key = rw f at e in cc
  | inr (r, f) ↦
      let named : some r.id ≡ some key = rw f at e in
      let (stored, is_mine, latest) = last_task_run-first task_id runs r f in
      (r, some-injective r.id key named, stored, is_mine, latest)
]
