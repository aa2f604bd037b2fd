-- ===== src/Memories.antt =====
-- db/memory_service.py: saving and searching memories. Confidences are in hundredths; new keys and the
-- clock are arguments. New rows come first.
pub mod Search
mod Tests
use agent_sam.Prelude.{
  ℕ, zero, suc, ◌*◌, ◌+◌, ℤ, pos, negsuc, String, ◌<>◌, Bool, true, false, not, ◌&&◌, ◌||◌, Option,
  none, some, List, [], ◌∷◌, map, select, take, any, all, contains, order_by, if◌then◌else◌, ◌==◌,
  nat_eq, string_eq, option_eq, ltb, leb, strip, lower, words, Exception, Outcome, ok, raise,
  value_error, require, ◌>>=◌, ◌>>◌,
}
use Prim.Native.Char.{code}

abbrev pub memory_types : List String
memory_types =
    "user_preference" ∷ "project_fact" ∷ "task_summary" ∷ "skill_note" ∷ "server_fact" ∷ "decision"
    ∷ "warning" ∷ []

-- A row of `memories`; embeddings and metadata are left out.
pub record Memory : Type 0 where
  pub id : ℕ
  pub workspace_id : Option ℕ
  pub user_id : Option ℕ
  pub task_id : Option ℕ
  pub scope : String
  pub memory_type : String
  pub key : String
  pub source : String
  pub confidence : ℕ
  pub content : String
  pub tags : List String
  pub last_used_at : ℕ
  pub created_at : ℕ

pub record MemoryCreateRequest : Type 0 where
  pub content : String
  pub source : String
  pub confidence : ℤ
  pub scope : String
  pub memory_type : String
  pub workspace_id : Option ℕ
  pub user_id : Option ℕ
  pub task_id : Option ℕ
  pub key : Option String
  pub tags : List String

pub record MemorySearchRequest : Type 0 where
  pub workspace_id : Option ℕ
  pub memory_types : List String
  pub text_query : Option String
  pub tags : List String
  pub scope : Option String
  pub limit : ℕ

unfoldable pub validate_memory_type : String → Outcome String
validate_memory_type t =
    if contains memory_types t then ok t else raise (value_error "Invalid memory type")

-- The loop of `normalize_tags`, after the tags `seen`.
unfoldable pub normalize_tags_from : List String → List String → List String
normalize_tags_from seen [] = []
normalize_tags_from seen (tag ∷ tags) =
    let cleaned = lower (strip tag) in
    elim (cleaned == "" || contains seen cleaned) [
      | true ↦ normalize_tags_from seen tags
      | false ↦ cleaned ∷ normalize_tags_from (cleaned ∷ seen) tags
    ]

unfoldable pub normalize_tags : List String → List String
unfolding normalize_tags_from
normalize_tags tags = normalize_tags_from [] tags

-- `0.0 <= confidence <= 1.0`
abbrev pub confidence_in : ℤ → Outcome ℕ
confidence_in (pos n) =
    if leb n 100 then ok n else raise (value_error "Memory confidence must be between 0.0 and 1.0.")
confidence_in (negsuc n) = raise (value_error "Memory confidence must be between 0.0 and 1.0.")

-- `request.key or f"{memory_type}:{uuid4().hex[:12]}"`
abbrev pub memory_key : String → String → Option String → String
memory_key memory_type fresh none = memory_type <> (":" <> fresh)
memory_key memory_type fresh (some key) = if key == "" then memory_type <> (":" <> fresh) else key

unfoldable pub save_memory :
    ℕ → String → ℕ → MemoryCreateRequest → List Memory → Outcome (Memory × List Memory)
unfolding validate_memory_type normalize_tags
save_memory id fresh now r memories = do
  validate_memory_type r.memory_type
  require (not (strip r.content == "")) (value_error "Memory content cannot be empty.")
  require (not (strip r.source == "")) (value_error "Memory source cannot be empty.")
  confidence ← confidence_in r.confidence
  let memory : Memory = record {
    id = id;
    workspace_id = r.workspace_id;
    user_id = r.user_id;
    task_id = r.task_id;
    scope = r.scope;
    memory_type = r.memory_type;
    key = memory_key r.memory_type fresh r.key;
    source = strip r.source;
    confidence = confidence;
    content = strip r.content;
    tags = normalize_tags r.tags;
    last_used_at = now;
    created_at = now;
  }
  ok (memory, memory ∷ memories)

-- `LIKE` from the first character; `_` stands for any character.
like_prefix : String → String → Bool
like_prefix String.[] s = true
like_prefix (String.◌∷◌ n token) String.[] = false
like_prefix (String.◌∷◌ n token) (String.◌∷◌ c s) =
    (code n == 95 || code n == code c) && like_prefix token s

-- `s LIKE '%token%'`
unfoldable pub is_like : String → String → Bool
unfolding like_prefix
is_like token String.[] = like_prefix token String.[]
is_like token (String.◌∷◌ c s) = like_prefix token (String.◌∷◌ c s) || is_like token s

-- A filter that is not set lets everything through.
abbrev pub in_types : List String → String → Bool
in_types [] t = true
in_types (u ∷ types) t = contains (u ∷ types) t

abbrev pub is_scope : Option String → String → Bool
is_scope none scope = true
is_scope (some asked) scope = scope == asked

abbrev pub is_workspace : Option ℕ → Option ℕ → Bool
is_workspace none w = true
is_workspace (some asked) w = w == some asked

abbrev pub has_token : List String → String → Bool
has_token [] content = true
has_token (t ∷ tokens) content = any (λ token. is_like token (lower content)) (t ∷ tokens)

abbrev pub query_tokens : Option String → List String
query_tokens none = []
query_tokens (some text) = words text

-- The `WHERE` of the statement.
unfoldable pub is_match : MemorySearchRequest → Memory → Bool
is_match r m =
    is_workspace r.workspace_id m.workspace_id
    && (in_types r.memory_types m.memory_type
        && (is_scope r.scope m.scope && has_token (query_tokens r.text_query) m.content))

-- `ORDER BY last_used_at DESC, confidence DESC, created_at DESC`
abbrev pub fresher : Memory → Memory → Bool
fresher m n =
    ltb n.last_used_at m.last_used_at
    || (m.last_used_at == n.last_used_at
        && (ltb n.confidence m.confidence
            || (m.confidence == n.confidence && leb n.created_at m.created_at)))

unfoldable pub has_tags : List String → Memory → Bool
unfolding normalize_tags
has_tags requested m = all (contains (normalize_tags m.tags)) requested

-- `limit * 5 if normalized_tags else limit`, and the filter by tags after it.
abbrev pub fetched : List String → ℕ → List Memory → List Memory
fetched [] limit rows = take limit rows
fetched (t ∷ tags) limit rows = select (has_tags (t ∷ tags)) (take (limit * 5) rows)

abbrev pub validate_types : List String → Outcome (Unit {0})
validate_types [] = ok tt
validate_types (t ∷ types) = validate_memory_type t >>= λ _. validate_types types

unfoldable pub search_memories : MemorySearchRequest → List Memory → Outcome (List Memory)
unfolding validate_memory_type normalize_tags is_match has_tags
search_memories r memories =
    if r.limit == 0
    then ok []
    else (validate_types r.memory_types
        >> ok (
            take r.limit (
              fetched (normalize_tags r.tags) r.limit
                (order_by fresher (select (is_match r) memories)))))
