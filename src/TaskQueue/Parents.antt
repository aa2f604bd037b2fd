-- ===== src/TaskQueue/Parents.antt =====
-- Subtasks stand in the workspace of their parents.
use agent_sam.Prelude.{
  ℕ, Bool, Option, none, some, List, [], ◌∷◌, ◌++◌, ◌≡◌, inl, inr, arith, refl, sym, ap, ◌∙◌,
  Option-cases, Bool-cases, All, All-map, All-update, update, find, Outcome, ok, raise, guarded-ok,
  nat_eq, string_eq, ◌==◌, if◌then◌else◌, option_eq,
}
use agent_sam.Database.{Task, Tables, has_id, get_task}
use mathlib.Core.Option.{some-injective}
use agent_sam.TaskQueue.Create.{check_parent}

-- A task with a parent has it in the same workspace.
abbrev pub HasParent : List Task → Task → Type 0
HasParent tasks t =
    (p : ℕ)
    → t.parent_task_id ≡ some p
    → (q : Task) × (find (has_id p) tasks ≡ some q) × (q.workspace_id ≡ t.workspace_id)

pub find-append :
    (p : Task → Bool) (xs ys : List Task) (q : Task)
    → find p xs ≡ some q
    → find p (xs ++ ys) ≡ some q
find-append p [] ys q h = cc
find-append p (x ∷ xs) ys q h = ground (arith, find-append p xs ys q)

-- A change of rows that keeps what relates them.
abbrev pub Keeps : (Task → Task) → Type 0
Keeps f =
    (t : Task)
    → ((f t).id ≡ t.id)
      × ((f t).workspace_id ≡ t.workspace_id)
      × ((f t).parent_task_id ≡ t.parent_task_id)

abbrev touch : (Task → Bool) → (Task → Task) → Task → Task
touch p f t = if p t then f t else t

touch-Keeps : (p : Task → Bool) (f : Task → Task) → Keeps f → Keeps (touch p f)
touch-Keeps p f keeps t = elim (Bool-cases (p t)) [
  | inl e ↦ rw e (keeps t)
  | inr e ↦ rw e (refl, refl, refl)
]

find-update :
    (i : ℕ) (p : Task → Bool) (f : Task → Task)
    → Keeps f
    → (xs : List Task) (q : Task) → find (has_id i) xs ≡ some q
    → (q' : Task) × (find (has_id i) (update p f xs) ≡ some q') × (q'.workspace_id ≡ q.workspace_id)
find-update i p f keeps [] q h = cc
find-update i p f keeps (x ∷ xs) q h =
    let same_id = (touch-Keeps p f keeps x).0 in
    let same_workspace = (touch-Keeps p f keeps x).1 in
    elim (Bool-cases (x.id == i)) [
      | inl e ↦
          let hit : x ≡ q = ground arith in
          (touch p f x, rw (same_id, e), same_workspace ∙ ap (λ (t : Task). t.workspace_id) hit)
      | inr e ↦
          let (q', found, w) = find-update i p f keeps xs q (ground arith) in
          (q', rw (same_id, e) found, w)
    ]

pub HasParent-update :
    (p : Task → Bool) (f : Task → Task)
    → Keeps f
    → (tasks : List Task) → All (HasParent tasks) tasks
    → All (HasParent (update p f tasks)) (update p f tasks)
HasParent-update p f keeps tasks h =
    All-update (HasParent (update p f tasks)) p f tasks
      (λ t parent i e.
        let (q, found, w) = parent i (sym (keeps t).2 ∙ e) in (q, found, w ∙ sym (keeps t).1))
      (All-map (HasParent tasks) _ tasks
        (λ t parent i e.
          let (q, found, w) = parent i e in
          let (q', found', w') = find-update i p f keeps tasks q found in (q', found', w' ∙ w))
        h)

pub check_parent-HasParent :
    (parent : Option ℕ) (workspace_id : ℕ) (db : Tables)
    → check_parent parent workspace_id db ≡ ok tt
    → (i : ℕ) → parent ≡ some i
    → (q : Task) × (get_task i db ≡ some q) × (q.workspace_id ≡ workspace_id)
unfolding check_parent
check_parent-HasParent none w db h i e = cc
check_parent-HasParent (some j) w db h i e = elim (Option-cases (get_task j db)) [
  | inl missing ↦
      let bad : ◌≡◌ {A = Outcome (Unit {0})} (raise _) (ok tt) = rw (missing, check_parent) at h in
      cc
  | inr (q, found) ↦ (
    q,
    rw (← some-injective j i e) found,
    (nat_eq.beq_iff q.workspace_id w).0 (guarded-ok _ (ok tt) _ (rw (found, check_parent) at h)).0,
  )
]

pub find-HasParent-append :
    (tasks new : List Task) (t : Task) → HasParent tasks t → HasParent (tasks ++ new) t
find-HasParent-append tasks new t parent i e =
    let (q, found, w) = parent i e in (q, find-append (has_id i) tasks new q found, w)
