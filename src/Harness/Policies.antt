-- ===== src/Harness/Policies.antt =====
-- harness/policies.py: `HarnessPolicies`. The search for a regular expression, the resolution of a
-- path and the test that a path lies below another one are those of Python's `re` and `pathlib`.
pub mod Soundness
use agent_sam.Prelude.{
  String, Bool, true, false, not, ◌&&◌, ◌||◌, Option, none, some, List, [], ◌∷◌, any, if◌then◌else◌,
  ◌==◌, string_eq, join, split, in_lower,
}
use agent_sam.Harness.Actions.{
  Action, message, shell, browser, file_read, file_write, file_patch, search, install_library,
  install_repo, git, github, source_cache, approval, finish, ShellAction, BrowserAction,
  InstallLibraryAction, InstallRepoAction,
}

abbrev pub blocked_shell_re : String
blocked_shell_re =
    "(^|\\s)(rm\\s+-rf\\s+/|shutdown\\b|reboot\\b|halt\\b|mkfs\\b|dd\\b|poweroff\\b|format\\b)"

abbrev pub approval_shell_re : String
approval_shell_re =
    "(^|\\s)(apt(-get)?\\s+install|pip\\s+install\\s+-g|npm\\s+install\\s+-g|systemctl\\b|service\\b|chmod\\b|chown\\b|git\\s+clone\\b|curl\\b|wget\\b)"

abbrev pub login_browser_re : String
login_browser_re = "login|sign[_ -]?in|submit|upload"

pub record PolicyDecision : Type 0 where
  pub allowed : Bool
  pub requires_approval : Bool
  pub risk_level : String
  pub reason : String

-- The settings that the policies read.
pub record PolicySettings : Type 0 where
  pub github_auto_create_pr : Bool
  pub agent_require_approval_for_installs : Bool
  pub agent_allow_network_installs : Bool

pub record PolicyHost : Type 0 where
  -- `re.search(pattern, text, re.IGNORECASE) is not None`
  pub re_search : (pattern text : String) → Bool
  -- `_resolve_path`
  pub resolve_path : (path workspace_root : String) → String
  -- `_is_inside`
  pub is_inside : (path workspace_root : String) → Bool

abbrev pub allow : String → PolicyDecision
allow reason = record {
  allowed = true;
  requires_approval = false;
  risk_level = "safe";
  reason = reason;
}

abbrev pub ask : String → String → PolicyDecision
ask risk_level reason = record {
  allowed = true;
  requires_approval = true;
  risk_level = risk_level;
  reason = reason;
}

abbrev pub deny : String → PolicyDecision
deny reason = record {
  allowed = false;
  requires_approval = false;
  risk_level = "dangerous";
  reason = reason;
}

abbrev or_empty : Option String → String
or_empty none = ""
or_empty (some t) = t

module _ (settings : PolicySettings) (h : PolicyHost) where
  unfoldable pub evaluate_path : String → String → PolicyDecision
  evaluate_path path workspace_root =
      let resolved = h.resolve_path path workspace_root in
      if not (h.is_inside resolved workspace_root)
      then deny "Path is outside the task workspace."
      else allow "Path is inside the workspace."

  unfoldable pub evaluate_shell : ShellAction → PolicyDecision
  evaluate_shell action =
      let normalized = join " " (split action.command) in
      if h.re_search blocked_shell_re normalized
      then deny "Command is destructive and blocked."
      else if h.re_search approval_shell_re normalized
      then ask "high" "Command matches an approval-required shell operation."
      else allow "Shell command allowed."

  unfoldable pub evaluate_library_install : InstallLibraryAction → PolicyDecision
  evaluate_library_install action =
      if action.scope == "global"
      then deny "Global package installation is blocked by default."
      else if action.ecosystem == "system"
      then ask "high" "System package installation requires approval."
      else if settings.agent_require_approval_for_installs
      then ask "medium" "Install actions require approval by configuration."
      else allow "Project-scoped install allowed."

  abbrev pub leaves_workspace : Option String → String → Bool
  leaves_workspace none workspace_root = false
  leaves_workspace (some destination) workspace_root =
      not (destination == "")
      && not (h.is_inside (h.resolve_path destination workspace_root) workspace_root)

  unfoldable pub evaluate_repo_install : InstallRepoAction → String → PolicyDecision
  evaluate_repo_install action workspace_root =
      if leaves_workspace action.destination workspace_root
      then deny "Repository clones must stay inside the task workspace."
      else if not settings.agent_allow_network_installs
      then deny "Network installs are disabled by configuration."
      else ask "medium" "Repository cloning requires approval."

  abbrev pub asks_for_captcha : Option String → Bool
  asks_for_captcha none = false
  asks_for_captcha (some url) = not (url == "") && in_lower "captcha" url

  abbrev pub logs_in : BrowserAction → Bool
  logs_in action =
      any (λ value. h.re_search login_browser_re (or_empty value))
        (some action.operation ∷ action.url ∷ action.ref ∷ action.text ∷ [])

  unfoldable pub evaluate_browser : BrowserAction → PolicyDecision
  evaluate_browser action =
      if asks_for_captcha action.url
      then deny "Browser automation must not bypass CAPTCHA."
      else if logs_in action
      then ask "medium" "Login, submit, and upload flows require approval."
      else allow "Browser action allowed."

  unfoldable pub evaluate : Action → String → PolicyDecision
  evaluate (approval a) root = allow "Approval resolution is always allowed."
  evaluate (file_read path) root = evaluate_path path root
  evaluate (file_write a) root = evaluate_path a.path root
  evaluate (file_patch a) root = allow "Patch-based file edits are allowed inside the workspace."
  evaluate (shell a) root = evaluate_shell a
  evaluate (install_library a) root = evaluate_library_install a
  evaluate (install_repo a) root = evaluate_repo_install a root
  evaluate (browser a) root = evaluate_browser a
  evaluate (github a) root =
      if a.operation == "open_pr" && not settings.github_auto_create_pr
      then ask "medium" "Opening a pull request requires approval unless auto-create is enabled."
      else allow "Allowed"
  evaluate (message content) root = allow "Allowed"
  evaluate (search a) root = allow "Allowed"
  evaluate (git a) root = allow "Allowed"
  evaluate (source_cache a) root = allow "Allowed"
  evaluate (finish summary) root = allow "Allowed"
