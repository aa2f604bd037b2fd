-- ===== src/Harness/Actions.antt =====
-- harness/actions.py: the actions, one constructor for each model.
use agent_sam.Prelude.{ℕ, String, Bool, Option, List, Fields}

pub record ShellAction : Type 0 where
  pub command : String
  pub cwd : Option String
  pub reason : String
  pub timeout_seconds : Option ℕ

pub record BrowserAction : Type 0 where
  pub operation : String
  pub url : Option String
  pub ref : Option String
  pub text : Option String
  pub key : Option String
  pub wait_ms : Option ℕ
  pub direction : Option String

pub record FileWriteAction : Type 0 where
  pub path : String
  pub content : String
  pub create_parents : Bool
  pub dry_run : Bool

pub record FilePatchAction : Type 0 where
  pub diff : String
  pub dry_run : Bool

pub record SearchAction : Type 0 where
  pub query : String
  pub path : Option String
  pub max_results : ℕ

pub record InstallLibraryAction : Type 0 where
  pub ecosystem : String
  pub package_name : String
  pub version : Option String
  pub reason : String
  pub scope : String

pub record InstallRepoAction : Type 0 where
  pub repo_url : String
  pub destination : Option String
  pub reason : String

pub record GitAction : Type 0 where
  pub operation : String
  pub args : List String
  pub cwd : Option String
  pub message : Option String

pub record GithubAction : Type 0 where
  pub operation : String
  pub payload : Fields

pub record SourceCacheAction : Type 0 where
  pub operation : String
  pub package_spec : String
  pub query : Option String
  pub path : Option String

pub record ApprovalAction : Type 0 where
  pub approval_id : ℕ
  pub decision : String
  pub reason : Option String

pub data Action : Type 0 where
  message : (content : String) → Action
  shell : ShellAction → Action
  browser : BrowserAction → Action
  file_read : (path : String) → Action
  file_write : FileWriteAction → Action
  file_patch : FilePatchAction → Action
  search : SearchAction → Action
  install_library : InstallLibraryAction → Action
  install_repo : InstallRepoAction → Action
  git : GitAction → Action
  github : GithubAction → Action
  source_cache : SourceCacheAction → Action
  approval : ApprovalAction → Action
  finish : (summary : String) → Action

abbrev pub action_type : Action → String
action_type (message content) = "message"
action_type (shell a) = "shell"
action_type (browser a) = "browser"
action_type (file_read path) = "file_read"
action_type (file_write a) = "file_write"
action_type (file_patch a) = "file_patch"
action_type (search a) = "search"
action_type (install_library a) = "install_library"
action_type (install_repo a) = "install_repo"
action_type (git a) = "git"
action_type (github a) = "github"
action_type (source_cache a) = "source_cache"
action_type (approval a) = "approval"
action_type (finish summary) = "finish"
