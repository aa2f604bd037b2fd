-- ===== src/Memories/Tests.antt =====
-- A few memories.
use agent_sam.Prelude.{
  ◌-◌, ℕ, ℤ, pos, negsuc, String, Option, none, some, List, [], ◌∷◌, map, ◌≡◌, refl, Outcome, ok,
  raise, value_error, ◌>>=◌, nat_eq, string_eq, option_eq, strip, lstrip, rstrip, lower, words,
  order_by, insert_ordered, char_count,
}
use agent_sam.Memories.{
  Memory, MemoryCreateRequest, MemorySearchRequest, validate_memory_type, normalize_tags_from,
  normalize_tags, save_memory, is_like, is_match, has_tags, search_memories,
}
use agent_sam.Memories.Search.{IsFound, search_memories-IsFound}

program : Unit {0}
unfolding validate_memory_type normalize_tags_from normalize_tags save_memory is_like is_match
    has_tags search_memories strip lstrip rstrip lower words order_by insert_ordered char_count
program = tt

tags : normalize_tags (" Deploy" ∷ "deploy " ∷ " " ∷ "nginx" ∷ []) ≡ "deploy" ∷ "nginx" ∷ []
unfolding program
tags = refl

abbrev new : ℤ → String → MemoryCreateRequest
new confidence content = record {
  content = content;
  source = " user ";
  confidence = confidence;
  scope = "workspace";
  memory_type = "decision";
  workspace_id = some 1;
  user_id = none;
  task_id = none;
  key = none;
  tags = " Deploy" ∷ [];
}

abbrev summary : Outcome (Memory × List Memory) → List String
summary (ok (m, ms)) = m.content ∷ m.key ∷ m.tags
summary (raise e) = []

saved :
    summary (save_memory 1 "abc" 10 (new (pos 80) " use nginx ") [])
    ≡ "use nginx" ∷ "decision:abc" ∷ "deploy" ∷ []
unfolding program
saved = refl

unsure :
    save_memory 1 "abc" 10 (new (negsuc 0) "use nginx") []
    ≡ raise (value_error "Memory confidence must be between 0.0 and 1.0.")
unfolding program
unsure = refl

abbrev memory : ℕ → String → List String → Memory
memory id content tags = record {
  id = id;
  workspace_id = some 1;
  user_id = none;
  task_id = none;
  scope = "workspace";
  memory_type = "decision";
  key = "k";
  source = "user";
  confidence = 50;
  content = content;
  tags = tags;
  last_used_at = 100 - id;
  created_at = 1;
}

abbrev stored : List Memory
stored =
    memory 6 "Use NGINX for the site" ("deploy" ∷ [])
    ∷ memory 2 "the nginx port" []
    ∷ memory 1 "postgres" []
    ∷ memory 3 "redis" []
    ∷ memory 4 "qdrant" []
    ∷ memory 5 "systemd" []
    ∷ []

abbrev search : Option String → List String → ℕ → MemorySearchRequest
search text_query tags limit = record {
  workspace_id = some 1;
  memory_types = "decision" ∷ [];
  text_query = text_query;
  tags = tags;
  scope = none;
  limit = limit;
}

abbrev ids : List Memory → List ℕ
ids memories = map (λ m. m.id) memories

by_text :
    (search_memories (search (some "nginx?") [] 5) stored >>= λ found. ok (ids found))
    ≡ ok (2 ∷ 6 ∷ [])
unfolding program
by_text = refl

by_tag :
    (search_memories (search none ("Deploy" ∷ []) 2) stored >>= λ found. ok (ids found))
    ≡ ok (6 ∷ [])
unfolding program
by_tag = refl

-- Only the first five rows for each row asked for are looked at: a tagged memory behind them is missed.
missed_tag : search_memories (search none ("deploy" ∷ []) 1) stored ≡ ok []
unfolding program
missed_tag = refl

search_memories-IsFound_example :
    IsFound (search (some "nginx") [] 1) stored (memory 2 "the nginx port" [] ∷ [])
unfolding program
search_memories-IsFound_example =
    search_memories-IsFound (search (some "nginx") [] 1) stored (memory 2 "the nginx port" [] ∷ [])
      refl
