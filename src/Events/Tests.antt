-- ===== src/Events/Tests.antt =====
-- Events of two runs of one task.
use agent_sam.Prelude.{
  ℕ, String, none, some, List, [], ◌∷◌, ◌++◌, map, ◌≡◌, ◌≢◌, ◌<◌, All, select, refl, nat_eq,
  string_eq, option_eq, lower, is_in, is_prefix, strip, lstrip, order_by, insert_ordered, str, arr,
  obj, nil, cons, end, field, raise, value_error,
}
use agent_sam.Events.Redact.{is_sensitive, redact_secret_data, redacted, IsRedaction}
use agent_sam.Events.Store.{
  AgentEvent, NewEvent, next_agent_event_sequence, list_events, event_row, append_event,
  agent_event_to_model, in_scope,
}
use agent_sam.Events.Journal.{append_event-list_events}

program : Unit {0}
unfolding is_sensitive redact_secret_data next_agent_event_sequence list_events event_row
    append_event agent_event_to_model lower is_in is_prefix strip lstrip order_by insert_ordered
program = tt

-- The texts of the tests hold no secrets.
abbrev same : String → String
same s = s

hidden :
    redact_secret_data same (
      obj (
        field "API_Key"
          (str "k-1")
          (field "cmd" (arr (cons (obj (field "userPassword" (str "p") end)) nil)) end)))
    ≡ obj (
        field "API_Key" redacted
          (field "cmd" (arr (cons (obj (field "userPassword" redacted end)) nil)) end))
unfolding program
hidden = refl

abbrev event : ℕ → String → NewEvent
event run content = record {
  task_id = some 1;
  agent_run_id = some run;
  agent_slug = some "coder";
  event_type = "tool_call";
  content = content;
  metadata = obj (field "token" (str "t-1") end);
  parent_event_id = some 3;
  sequence = none;
}

abbrev first_run : List AgentEvent
first_run = (append_event same 2 11 (event 5 "b") (append_event same 1 10 (event 5 "a") []).1).1

abbrev both_runs : List AgentEvent
both_runs = (append_event same 3 12 (event 6 "c") first_run).1

abbrev contents : List AgentEvent → List String
contents events = map (λ e. e.content) events

of_run : contents (list_events (some 1) (some 5) none both_runs) ≡ "a" ∷ "b" ∷ []
unfolding program
of_run = refl

-- The numbers of the second run begin anew, and so its events are listed among the first run's.
of_task : contents (list_events (some 1) none none both_runs) ≡ "a" ∷ "c" ∷ "b" ∷ []
unfolding program
of_task = refl

limited_list : contents (list_events none none (some 2) both_runs) ≡ "a" ∷ "c" ∷ []
unfolding program
limited_list = refl

abbrev mistyped : AgentEvent
mistyped = record (event_row same 1 10 1 (event 5 "a")) { event_type = " Tool_Call " }

unparsed : agent_event_to_model mistyped ≡ raise (value_error "event_type")
unfolding program
unparsed = refl

append_event-list_events_example :
    (list_events none (some 6) none (append_event same 4 13 (event 6 "d") both_runs).1
      ≡ list_events none (some 6) none both_runs
        ++ ((append_event same 4 13 (event 6 "d") both_runs).0 ∷ []))
    × ((other : ℕ)
        → other ≢ 6
        → list_events none (some other) none (append_event same 4 13 (event 6 "d") both_runs).1
          ≡ list_events none (some other) none both_runs)
    × IsRedaction same
        (obj (field "token" (str "t-1") end))
        (append_event same 4 13 (event 6 "d") both_runs).0.metadata
    × ((append_event same 4 13 (event 6 "d") both_runs).0.content ≡ same "d")
    × ((append_event same 4 13 (event 6 "d") both_runs).0.event_type ≡ "tool_call")
    × ((append_event same 4 13 (event 6 "d") both_runs).0.id ≡ 4)
    × ((append_event same 4 13 (event 6 "d") both_runs).0.created_at ≡ 13)
    × ((append_event same 4 13 (event 6 "d") both_runs).0.task_id ≡ some 1)
    × ((append_event same 4 13 (event 6 "d") both_runs).0.agent_run_id ≡ some 6)
    × ((append_event same 4 13 (event 6 "d") both_runs).0.agent_slug ≡ some "coder")
    × ((append_event same 4 13 (event 6 "d") both_runs).0.parent_event_id ≡ some 3)
    × All
        (λ d. d.sequence < (append_event same 4 13 (event 6 "d") both_runs).0.sequence)
        (select (in_scope none (some 6)) both_runs)
append_event-list_events_example =
    append_event-list_events same 4 13 6 (event 6 "d") both_runs refl refl
