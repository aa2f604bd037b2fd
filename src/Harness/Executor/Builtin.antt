-- ===== src/Harness/Executor/Builtin.antt =====
-- harness/tool_executor.py: `_register_builtin_tools`, and the actions that it serves.
use agent_sam.Prelude.{
  String, Bool, true, false, some, List, [], ◌∷◌, ◌≡◌, refl, ◌∙◌, Outcome, ok, raise, string_eq,
  nat_eq, ◌==◌, arith, option_eq,
}
use agent_sam.Harness.Actions.{
  action_type, Action, message, shell, browser, file_read, file_write, file_patch, search,
  install_library, install_repo, git, github, source_cache, approval, finish,
}
use agent_sam.Harness.Policies.{evaluate}
use agent_sam.Harness.Policies.Soundness.{evaluate-IsDecision}
use agent_sam.Harness.Registry.{
  Observation, Journal, Handler, ToolSpec, register_tool, get_tool, validate_tool_input,
}
use agent_sam.Harness.Executor.{
  State, Executor, execute_action, execute_policed, finish_handler, run_tool, log_call,
  tool_name_for_action,
}
use agent_sam.Harness.Executor.Guard.{permitted, attended}

-- A tool in the program's table: its name, its description, its schema and what it requires.
abbrev tool_spec : (String → Handler) → String → String → String → Bool → Bool → ToolSpec
tool_spec handlers name description schema workspace_required network_required = record {
  name = name;
  description = description;
  input_schema = some schema;
  handler = some (handlers name);
  allowed_agents = [];
  workspace_required = workspace_required;
  network_required = network_required;
}

unfoldable pub builtin_tools : (String → Handler) → List ToolSpec
builtin_tools handlers =
    tool_spec handlers "safe_shell" "Safe shell execution" "shell" true false
    ∷ tool_spec handlers "browser_tool" "Browser automation" "browser" true true
    ∷ tool_spec handlers "file_read" "Read a file" "file_read" true false
    ∷ tool_spec handlers "file_write" "Write a file" "file_write" true false
    ∷ tool_spec handlers "file_patch" "Apply a file patch" "file_patch" true false
    ∷ tool_spec handlers "search" "Search workspace text" "search" true false
    ∷ tool_spec handlers "install_library" "Install a project library" "install_library" true true
    ∷ tool_spec handlers "install_repo" "Clone a repository" "install_repo" true true
    ∷ tool_spec handlers "git" "Git operations" "git" true false
    ∷ tool_spec handlers "github" "GitHub operations" "github" true true
    ∷ tool_spec handlers "source_cache" "Offline source cache" "source_cache" true true
    ∷ tool_spec handlers "approval" "Resolve approval state" "approval" false false
    ∷ []

abbrev register_all : List ToolSpec → List ToolSpec → List ToolSpec
register_all [] tools = tools
register_all (t ∷ ts) tools = register_all ts (register_tool t tools)

unfoldable pub register_builtin_tools : (String → Handler) → List ToolSpec → List ToolSpec
unfolding builtin_tools register_tool
register_builtin_tools handlers tools = register_all (builtin_tools handlers) tools

abbrev pub is_raised : Outcome Observation → Bool
is_raised (ok o) = false
is_raised (raise e) = true

finish_handler-not_raised :
    (x : Executor) (tool_name : String) (a : Action) (handled : List Action)
    (out : Outcome Observation × Journal)
    → is_raised (finish_handler x tool_name a handled out).0 ≡ false
finish_handler-not_raised x tool_name a handled (raise e, j) = refl
finish_handler-not_raised x tool_name a handled (ok o, j) = refl

-- The tool of an action that the table serves accepts it, and no exception of its handler escapes.
run_tool-not_raised :
    (x : Executor) (handlers : String → Handler) (name description schema : String) (w n : Bool)
    (a : Action) (s : State)
    → (action_type a == schema) ≡ true
    → is_raised (run_tool x name a s (ok (tool_spec handlers name description schema w n))).0
      ≡ false
unfolding validate_tool_input
run_tool-not_raised x handlers name description schema w n a s e =
    rw e (finish_handler-not_raised x name a (a ∷ s.handled) (handlers name a s.journal))

execute_policed-raised :
    (x : Executor) (a : Action) (s : State) (b : Bool)
    → permitted x a ≡ true
    → attended x a ≡ false
    → is_raised
        (run_tool x
          (tool_name_for_action a)
          a
          (log_call x a s)
          (get_tool (tool_name_for_action a) x.tools)).0
      ≡ b
    → is_raised (execute_policed x a s).0 ≡ b
execute_policed-raised x a s b p q e =
    let (allowed, asks, _, _) = evaluate-IsDecision x.settings x.policy_host a x.workspace_root in
    let no_approval : (evaluate x.settings x.policy_host a x.workspace_root).requires_approval
        ≡ false =
      ground arith in
    rw (allowed ∙ p, no_approval) e

-- With the built-in tools, an action that the policies permit without an approval gives an
-- observation, also if its handler raises. The one exception is a message action: no tool is
-- registered under its name, so that the executor itself raises.
pub execute_action-raised :
    (x : Executor) (handlers : String → Handler) (a : Action) (s : State)
    → x.tools ≡ register_builtin_tools handlers []
    → permitted x a ≡ true
    → attended x a ≡ false
    → is_raised (execute_action x a s).0 ≡ (action_type a == "message")
unfolding execute_action register_builtin_tools builtin_tools register_tool get_tool
    tool_name_for_action
execute_action-raised x handlers (message c) s tools p q =
    execute_policed-raised x (message c) s true p q (rw tools refl)
execute_action-raised x handlers (shell b) s tools p q =
    execute_policed-raised x (shell b) s false p q
      (rw tools (run_tool-not_raised x handlers "safe_shell" _ "shell" _ _ (shell b) _ refl))
execute_action-raised x handlers (browser b) s tools p q =
    execute_policed-raised x (browser b) s false p q
      (rw tools (run_tool-not_raised x handlers "browser_tool" _ "browser" _ _ (browser b) _ refl))
execute_action-raised x handlers (file_read b) s tools p q =
    execute_policed-raised x (file_read b) s false p q
      (rw tools (run_tool-not_raised x handlers "file_read" _ "file_read" _ _ (file_read b) _ refl))
execute_action-raised x handlers (file_write b) s tools p q =
    execute_policed-raised x (file_write b) s false p q (
      rw tools
        (run_tool-not_raised x handlers "file_write" _ "file_write" _ _ (file_write b) _ refl))
execute_action-raised x handlers (file_patch b) s tools p q =
    execute_policed-raised x (file_patch b) s false p q (
      rw tools
        (run_tool-not_raised x handlers "file_patch" _ "file_patch" _ _ (file_patch b) _ refl))
execute_action-raised x handlers (search b) s tools p q =
    execute_policed-raised x (search b) s false p q
      (rw tools (run_tool-not_raised x handlers "search" _ "search" _ _ (search b) _ refl))
execute_action-raised x handlers (install_library b) s tools p q =
    execute_policed-raised x (install_library b) s false p q (
      rw tools (
        run_tool-not_raised x handlers "install_library" _ "install_library" _ _ (install_library b)
          _ refl))
execute_action-raised x handlers (install_repo b) s tools p q =
    execute_policed-raised x (install_repo b) s false p q (
      rw tools (
        run_tool-not_raised x handlers "install_repo" _ "install_repo" _ _ (install_repo b) _ refl))
execute_action-raised x handlers (git b) s tools p q =
    execute_policed-raised x (git b) s false p q
      (rw tools (run_tool-not_raised x handlers "git" _ "git" _ _ (git b) _ refl))
execute_action-raised x handlers (github b) s tools p q =
    execute_policed-raised x (github b) s false p q
      (rw tools (run_tool-not_raised x handlers "github" _ "github" _ _ (github b) _ refl))
execute_action-raised x handlers (source_cache b) s tools p q =
    execute_policed-raised x (source_cache b) s false p q (
      rw tools (
        run_tool-not_raised x handlers "source_cache" _ "source_cache" _ _ (source_cache b) _ refl))
execute_action-raised x handlers (approval b) s tools p q =
    execute_policed-raised x (approval b) s false p q
      (rw tools (run_tool-not_raised x handlers "approval" _ "approval" _ _ (approval b) _ refl))
execute_action-raised x handlers (finish summary) s tools p q = refl
