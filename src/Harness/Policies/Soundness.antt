-- ===== src/Harness/Policies/Soundness.antt =====
-- What the policies permit, and what they permit without an approval.
use agent_sam.Prelude.{
  String, Bool, true, false, not, ◌&&◌, ◌||◌, ◌≡◌, ◌==◌, string_eq, join, split, if◌then◌else◌,
  refl, nat_eq, option_eq,
}
use agent_sam.Harness.Actions.{
  Action, message, shell, browser, file_read, file_write, file_patch, search, install_library,
  install_repo, git, github, source_cache, approval, finish,
}
use agent_sam.Harness.Policies.{
  PolicySettings, PolicyHost, PolicyDecision, blocked_shell_re, approval_shell_re, leaves_workspace,
  asks_for_captcha, logs_in, evaluate, evaluate_path, evaluate_shell, evaluate_library_install,
  evaluate_repo_install, evaluate_browser, allow, ask, deny,
}

module _ (settings : PolicySettings) (h : PolicyHost) where
  abbrev pub stays_inside : String → String → Bool
  stays_inside path root = h.is_inside (h.resolve_path path root) root

  -- No rule forbids the action.
  abbrev pub permits : Action → String → Bool
  permits (file_read path) root = stays_inside path root
  permits (file_write a) root = stays_inside a.path root
  permits (shell a) root = not (h.re_search blocked_shell_re (join " " (split a.command)))
  permits (install_library a) root = not (a.scope == "global")
  permits (install_repo a) root =
      not (leaves_workspace settings h a.destination root) && settings.agent_allow_network_installs
  permits (browser a) root = not (asks_for_captcha settings h a.url)
  permits _ root = true

  -- A human has to approve it.
  abbrev pub is_attended : Action → Bool
  is_attended (shell a) = h.re_search approval_shell_re (join " " (split a.command))
  is_attended (install_library a) =
      a.ecosystem == "system" || settings.agent_require_approval_for_installs
  is_attended (install_repo a) = true
  is_attended (browser a) = logs_in settings h a
  is_attended (github a) = a.operation == "open_pr" && not settings.github_auto_create_pr
  is_attended _ = false

  -- A decision's two flags and a risk level that goes with them.
  abbrev pub IsDecision : Bool → Bool → PolicyDecision → Type 0
  IsDecision permitted attended d =
      (d.allowed ≡ permitted)
      × (d.requires_approval ≡ (permitted && attended))
      × ((d.risk_level == "dangerous") ≡ not permitted)
      × ((d.risk_level == "safe") ≡ (permitted && not attended))

  -- A chain of guards decides as its tests say.
  path-IsDecision :
      (inside : Bool) (denied allowed : String)
      → IsDecision inside false (if not inside then deny denied else allow allowed)
  path-IsDecision true denied allowed = (refl, refl, refl, refl)
  path-IsDecision false denied allowed = (refl, refl, refl, refl)

  guard-IsDecision :
      (p q : Bool) (risk_level denied asked allowed : String)
      → (risk_level == "dangerous") ≡ false
      → (risk_level == "safe") ≡ false
      → IsDecision
          (not p)
          q
          (if p then deny denied else if q then ask risk_level asked else allow allowed)
  guard-IsDecision true q risk_level denied asked allowed e f = (refl, refl, refl, refl)
  guard-IsDecision false true risk_level denied asked allowed e f = (refl, refl, e, f)
  guard-IsDecision false false risk_level denied asked allowed e f = (refl, refl, refl, refl)

  library-IsDecision :
      (p q r : Bool) (denied system asked allowed : String)
      → IsDecision (not p) (q || r) (
          if p
          then deny denied
          else if q
          then ask "high" system
          else if r
          then ask "medium" asked
          else allow allowed)
  library-IsDecision true q r denied system asked allowed = (refl, refl, refl, refl)
  library-IsDecision false true r denied system asked allowed = (refl, refl, refl, refl)
  library-IsDecision false false true denied system asked allowed = (refl, refl, refl, refl)
  library-IsDecision false false false denied system asked allowed = (refl, refl, refl, refl)

  repo-IsDecision :
      (p reachable : Bool) (denied closed asked : String)
      → IsDecision
          (not p && reachable)
          true
          (if p then deny denied else if not reachable then deny closed else ask "medium" asked)
  repo-IsDecision true reachable denied closed asked = (refl, refl, refl, refl)
  repo-IsDecision false true denied closed asked = (refl, refl, refl, refl)
  repo-IsDecision false false denied closed asked = (refl, refl, refl, refl)

  -- The policies allow an action exactly if no rule forbids it: a file stays inside the workspace, a
  -- command is not destructive, a library is not installed globally, a clone stays inside the
  -- workspace and the network is open, a page is no captcha. An allowed action needs an approval
  -- exactly if a rule asks for one. The risk level is dangerous for what is forbidden, and safe for
  -- what needs no approval, and neither for the rest.
  pub evaluate-IsDecision :
      (a : Action) (root : String)
      → IsDecision (permits a root) (is_attended a) (evaluate settings h a root)
  unfolding evaluate evaluate_path evaluate_shell evaluate_library_install evaluate_repo_install
      evaluate_browser
  evaluate-IsDecision (message content) root = (refl, refl, refl, refl)
  evaluate-IsDecision (shell a) root = guard-IsDecision _ _ "high" _ _ _ refl refl
  evaluate-IsDecision (browser a) root = guard-IsDecision _ _ "medium" _ _ _ refl refl
  evaluate-IsDecision (file_read path) root = path-IsDecision _ _ _
  evaluate-IsDecision (file_write a) root = path-IsDecision _ _ _
  evaluate-IsDecision (file_patch a) root = (refl, refl, refl, refl)
  evaluate-IsDecision (search a) root = (refl, refl, refl, refl)
  evaluate-IsDecision (install_library a) root = library-IsDecision _ _ _ _ _ _ _
  evaluate-IsDecision (install_repo a) root = repo-IsDecision _ _ _ _ _
  evaluate-IsDecision (git a) root = (refl, refl, refl, refl)
  evaluate-IsDecision (github a) root = guard-IsDecision false _ "medium" "" _ _ refl refl
  evaluate-IsDecision (source_cache a) root = (refl, refl, refl, refl)
  evaluate-IsDecision (approval a) root = (refl, refl, refl, refl)
  evaluate-IsDecision (finish summary) root = (refl, refl, refl, refl)
