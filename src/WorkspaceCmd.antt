-- ===== src/WorkspaceCmd.antt =====
-- cmd/workspace: the commands on workspaces, and what they call.
pub mod New
pub mod Manage
use etok.Base.{ℕ, String, ◌<>◌, Bool, Option, none, some, List, [], ◌∷◌}
use etok.Api.Workspace.{Workspace}
use etok.Kube.{Error, Get, Result, ok, err}
use etok.Kube.Effect.{Effect, Done, pure, raise, lift, checked, ◌>>=◌}
use etok.Env.{Env}
use etok.Env.File.{Files}
use etok.GitRepo.{GitRepo, Opened, open_repo, root_module_relative_path, url}

abbrev pub default_namespace : String
default_namespace = "default"

abbrev pub default_workspace : String
default_workspace = "default"

-- What a watch ends with, when it waits for a condition for a limited time.
pub data Waited : Type 0 where
  reached timed_out : Waited
  wait_failed : Error → Waited

-- The environment of a command: files, git, the client of workspaces, and the watches for a
-- workspace to be reconciled and ready, and for its pod. A group of goroutines ends with the first
-- error in the order in which they finish, which is a parameter.
pub record Shell (S : Type 0) : Type 0 where
  pub files : Files S
  pub find_repo : String → S → Opened
  pub abs : S → String → Result String
  pub normalize : String → String
  pub create_client : S → Result Done
  pub get_workspace : String → String → S → Get Workspace
  pub list_workspaces : S → Result (List Workspace)
  pub create_workspace : Workspace → S → Result Workspace × S
  pub delete_workspace : String → String → S → Option Error × S
  pub wait_for_reconcile : Workspace → S → Waited
  pub wait_for_ready : Workspace → S → Waited
  pub wait_for_container : Workspace → S → Waited
  pub stream : String → S → Option Error
  pub finishing_order : List (Option Error) → List (Option Error)
  -- The exit code of the pod; none where it does not come in time.
  pub exit : String → S → Option (Option Error)
  -- wait.PollImmediate: the condition is tested until it holds, fails or the time is over.
  pub poll : (S → Result Bool) → Effect S Done

-- A panic ends a command as an error does.
abbrev pub unless_panic : {S A : Type 0} → Option (Result A) → Effect S A
unless_panic none = raise "panic"
unless_panic (some r) = lift r

abbrev pub unless_absent : {S A : Type 0} → Option A → Effect S A
unless_absent none = raise "panic"
unless_absent (some a) = pure a

module _ {S : Type 0} (sh : Shell S) where
  abbrev pub opened_repo : String → Effect S GitRepo
  opened_repo path = checked (λ s. open_repo (sh.find_repo path s))

  abbrev pub working_dir : GitRepo → Effect S String
  working_dir repo s = unless_panic (root_module_relative_path (sh.abs s) repo) s

  abbrev pub repo_url : GitRepo → Effect S String
  repo_url repo = unless_absent (url sh.normalize repo)
