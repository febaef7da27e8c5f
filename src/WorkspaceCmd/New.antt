-- ===== src/WorkspaceCmd/New.antt =====
-- cmd/workspace/workspace_new.go
pub mod Laws
use etok.Base.{
  ℕ, String, ◌<>◌, Bool, true, false, not, Option, none, some, List, [], ◌∷◌, ◌++◌, if◌then◌else◌,
}
use etok.Base.Dict.{Dict}
use etok.Labels
use etok.Labels.{Version, set_common_labels, set_label}
use etok.RunPod.{named}
use etok.Api.Meta.{ObjectMeta}
use etok.Api.Workspace.{
  Workspace, WorkspaceSpec, WorkspaceStatus, WorkspacePhase, Variable, workspace_pod_name,
}
use etok.Kube.{Error, Result, ok, err}
use etok.Kube.Effect.{Effect, Done, pure, lift, checked, ◌>>=◌, ◌>>◌}
use etok.Env.{Env}
use etok.Env.File.{write_env}
use etok.GitRepo.{GitRepo}
use etok.WorkspaceCmd.{
  Shell, Waited, reached, timed_out, wait_failed, opened_repo, working_dir, repo_url,
}

pub record NewOptions : Type 0 where
  pub path : String
  pub namespace : String
  pub workspace : String
  pub workspace_spec : WorkspaceSpec
  pub disable_resource_cleanup : Bool
  pub verbosity : ℕ
  -- For tests
  pub status : Option WorkspaceStatus
  -- In the order in which the maps are walked
  pub variables : Dict String
  pub environment_variables : Dict String
  -- Whether a storage class is given by a flag or by the environment
  pub storage_class_passed : Bool

-- What the options recall, beside the world.
pub record Session (S : Type 0) : Type 0 where
  pub created_workspace : Bool
  pub world : S

abbrev no_status : WorkspaceStatus
no_status = record {
  queue = [];
  active = "";
  phase = WorkspacePhase.unset;
  outputs = [];
  serial = none;
  backup_serial = none;
  conditions = [];
}

variable_of : Bool → Dict String → List Variable
variable_of environment [] = []
variable_of environment ((key, value) ∷ variables) =
    record { key = key; value = value; value_from = none; environment_variable = environment }
    ∷ variable_of environment variables

abbrev status_of : Option WorkspaceStatus → WorkspaceStatus
status_of none = no_status
status_of (some status) = status

-- The workspace that is sent to the server.
unfoldable pub new_workspace : Version → NewOptions → String → String → Workspace
unfolding variable_of
new_workspace version o dir url = record {
  metadata =
      set_label
        (set_label (set_common_labels version (named o.workspace o.namespace))
          (Labels.workspace o.workspace))
        Labels.workspace_component;
  spec = record (o.workspace_spec) {
    verbosity = o.verbosity;
    vcs = record (o.workspace_spec.vcs) { working_dir = dir; repository = url };
    variables =
        (o.workspace_spec.variables ++ variable_of false o.variables)
        ++ variable_of true o.environment_variables;
  };
  status = status_of o.status;
}

-- The storage class is nil unless one is passed.
abbrev prepared : NewOptions → NewOptions
prepared o = if o.storage_class_passed then o else record o {
  workspace_spec = record (o.workspace_spec) {
    cache = record (o.workspace_spec.cache) { storage_class = none };
  };
}

abbrev pub wait_error : Error → Waited → Option Error
wait_error timeout reached = none
wait_error timeout timed_out = some timeout
wait_error timeout (wait_failed e) = some e

abbrev pub first_error : List (Option Error) → Result Done
first_error [] = ok tt
first_error (none ∷ errors) = first_error errors
first_error (some e ∷ errors) = err e

module _ {S A : Type 0} where
  abbrev outside : Effect S A → Effect (Session S) A
  outside m w = let (r, s) = m w.world in (r, record w { world = s })

module _ {S : Type 0} (sh : Shell S) (version : Version) where
  wait_for_reconcile : Workspace → S → Option Error
  wait_for_reconcile ws s =
      wait_error "timed out waiting for workspace to be reconciled" (sh.wait_for_reconcile ws s)

  wait_for_ready : Workspace → S → Option Error
  wait_for_ready ws s =
      wait_error "timed out waiting for workspace to be ready" (sh.wait_for_ready ws s)

  wait_for_container : Workspace → S → Option Error
  wait_for_container ws s =
      wait_error "timed out waiting for pod to be ready" (sh.wait_for_container ws s)

  abbrev or_stream : Workspace → S → Option Error → Option Error
  or_stream ws s (some e) = some e
  or_stream ws s none = sh.stream (workspace_pod_name ws.name) s

  -- The group: to be reconciled, to be ready, and the pod with its logs.
  wait_all : Workspace → S → Result Done
  unfolding wait_for_reconcile wait_for_ready wait_for_container
  wait_all ws s = first_error (
      sh.finishing_order (
        wait_for_reconcile ws s
        ∷ wait_for_ready ws s
        ∷ or_stream ws s (wait_for_container ws s)
        ∷ []))

  abbrev exit_error : Option (Option Error) → Result Done
  exit_error none = err "timed out waiting for exit code"
  exit_error (some none) = ok tt
  exit_error (some (some e)) = err e

  abbrev recorded : Result Workspace × S → Result Workspace × Session S
  recorded (ok ws, s) = (ok ws, record { created_workspace = true; world = s })
  recorded (err e, s) = (err e, record { created_workspace = false; world = s })

  -- `createWorkspace`, which recalls that it has created the workspace.
  unfoldable pub create_workspace : NewOptions → GitRepo → Effect (Session S) Workspace
  create_workspace o repo = do
    dir ← outside (working_dir sh repo)
    url ← outside (repo_url sh repo)
    λ w. recorded (sh.create_workspace (new_workspace version o dir url) w.world)

  -- What is done once the workspace is created.
  follow : NewOptions → Workspace → Effect S Done
  unfolding wait_all
  follow o ws = do
    checked (wait_all ws)
    write_env sh.files o.path (record { namespace = o.namespace; workspace = o.workspace })
    checked (λ s. exit_error (sh.exit (workspace_pod_name ws.name) s))

  unfoldable pub run : NewOptions → GitRepo → Effect (Session S) Done
  unfolding create_workspace follow
  run o repo = do ws ← create_workspace o repo; outside (follow o ws)

  unfoldable pub cleanup : NewOptions → Session S → Session S
  cleanup o w =
      if w.created_workspace
      then record w { world = (sh.delete_workspace o.namespace o.workspace w.world).1 }
      else w

  abbrev ended : NewOptions → Result Done × Session S → Result Done × S
  unfolding cleanup
  ended o (ok unit, w) = (ok tt, w.world)
  ended o (err e, w) = (err e, if o.disable_resource_cleanup then w.world else (cleanup o w).world)

  -- The command, on one argument.
  unfoldable pub new_cmd : NewOptions → Effect S Done
  unfolding run cleanup
  new_cmd o = do
    repo ← opened_repo sh o.path
    checked sh.create_client
    λ s. ended o (run (prepared o) repo (record { created_workspace = false; world = s }))
