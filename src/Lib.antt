-- ===== src/Lib.antt =====
-- Agent Sam, a private agent system: models and proofs of the core of its Python code.
--
-- Users and messengers put tasks into a queue. A worker claims them one at a time and has an agent
-- handle each. The agent works in a harness loop: a model answers with one action at a time, the
-- policies decide on it, and a tool carries it out. Shell commands go through a tool of their own,
-- which classifies them by risk and keeps the dangerous ones waiting for an approval. A budget
-- service chooses the models and counts what they cost. Before that a router picks the agent that
-- suits the task, and its calls of models fall back on other models. Skills are published in versions
-- and change by proposals that a user reviews, and so do sub-agents come about. Rows of a database
-- are records in lists, a commit is a new list, and a call that raises is a value of `Outcome`.
--
-- Prelude     tests, lists, sorting, exceptions, JSON and texts as Python has them.
-- Database    the rows of db/models.py that the queue uses.
-- TaskQueue   db/task_queue.py. Create: create_task, create_subtask. Listing: list_task_queue,
--             get_queue_status. Claim: claim_next_task. Change: update_task_status and the calls
--             that use it, reprioritize_task. Attempts, Parents and Validity carry the invariant of
--             the two tables; Claim/Order, Claim/Exclusive, Change/Lifecycle, Listing/Order and
--             Listing/Counts say what one call does. A lock that another session holds is a test on
--             keys, and now() and new keys are arguments.
-- Worker      workers/main.py: a round of worker_loop, and the loop on a list of rounds. What the
--             agent does to a task is an argument.
-- Shell       tools/shell_risk_rules.py (Rules, SafeRules) and tools/shell_command.py: Classify is
--             _classify_command, Tool has the shared parts and Tool/Calls the two calls,
--             submit_command and execute_approved_tool_call; Tool/Steps, Tool/Safety and
--             Tool/Once carry their proofs. Store has the rows and the host: the
--             search of Python's re, the resolution of paths, and the process.
-- Harness     harness/actions.py (Actions), harness/policies.py (Policies), harness/tool_registry.py
--             with the events and observations (Registry), harness/tool_executor.py (Executor) and
--             harness/loop.py (Loop). The handlers of the tools, the model, the clock and the
--             redaction of the texts of events are arguments.
-- Budget      services/budget_service.py.
-- Agents      agents/base.py (Profile), agents/registry.py (Keywords, Registry with its validation in
--             Registry/Valid) and agents/router.py (Router; Router/Decided and Router/Choice say
--             what route decides). A registry is a list of profiles in the order of a dictionary.
-- ModelRouter services/model_router.py: Names has infer_provider, validate_model_name and
--             list_configured_models, Provider the arguments of a call and the readers of an answer,
--             Completion run_completion and validate_models. litellm is an argument.
-- Skills      db/skill_service.py and the proposals of skills of services/agent_learning_service.py.
--             Yaml has the values of a YAML text, Definition parse_skill_yaml, Catalog the published
--             versions with _publish_skill_definition, Store and Proposals the proposals and their
--             review, Sync the synchronisation with a directory, Search search_relevant_skills;
--             Reach has the stores that sequences of calls reach. The YAML reader, the hash of a
--             definition, the clock and new keys are arguments.
-- SubAgents   the proposals of sub-agents of services/agent_learning_service.py, and
--             services/sub_agent_factory.py, with the files that it writes. Steps has the steps of
--             their store, with an administrator's approval of dangerous tools as a step from outside:
--             the documentation asks for it, and no call of the program gives it.
-- Events      db/repositories.py: append_event and list_events (Store), _redact_secret_data (Redact).
--             The replacement of secrets in texts is an argument.
-- Memories    db/memory_service.py: save_memory and search_memories; `_` in a word of a query is the
--             wildcard of LIKE, as in the program.
-- Runtime     agents/runtime.py: the start of a run over the router and the budget service, with what
--             it notes in the task's metadata (Noted), and the rules for the harness, reviews and
--             workspaces. The text of a cost is an argument.
-- Patch       harness/file_editor.py: _apply_unified_diff on lines, and in Patch/Editor write_file,
--             apply_patch and rollback_patch on all files, those of the patches (the difference, the
--             JSON record and the backup) included. Lines has the lines of a text. The match of a
--             hunk's header, the text of a difference, JSON, new keys and the resolution of a path
--             are arguments; that json.loads reads a record back is a hypothesis.
--
-- Bounds. A key and a time are natural numbers, and costs are natural numbers of cents: the rounding
-- of floats is left out. The harness loop recurs on agent_loop_max_iterations, the bound of the
-- program's own loop, and the worker's loop on the list of its rounds; nothing else needs fuel.
-- Scores of skills are in tenths, confidences of the router in hundredths.
-- Texts are compared as they are; white space and lower case are those of ASCII.
--
-- Not modelled: the messengers of gateways/, the nodes and model clients of agent/, the handlers of
-- the harness tools, the context of a task (build_task_context), the end of a run (agents/runtime.py),
-- the reading of a profile's file, learning events, the workspaces (harness/workspace.py), and the
-- HTTP application, scripts and deployment, which are input and output around these parts. Messages
-- of exceptions leave out the values that the program puts into them.
pub mod Prelude
pub mod Database
pub mod TaskQueue
pub mod Worker
pub mod Shell
pub mod Harness
pub mod Budget
pub mod Patch
pub mod Skills
pub mod Agents
pub mod ModelRouter
pub mod Events
pub mod SubAgents
pub mod Memories
pub mod Runtime
