-- ===== src/Api/Workspace.antt =====
-- api/etok.dev/v1alpha1/workspace_types.go
use etok.Base.{ℕ, String, ◌<>◌, Bool, true, false, Option, none, some, List, ◌==◌}
use etok.Base.Dict.{lookup}
use etok.Slice.{contains_string}
use etok.Api.Meta.{ObjectMeta, Condition, ConditionApi, workspace_ready_condition}
use etok.Api.Run.{Run, approved_annotation_key}

-- corev1.EnvVarSource is kept as a name: the program only passes it on.
pub record Variable : Type 0 where
  pub key : String
  pub value : String
  pub value_from : Option String
  pub environment_variable : Bool

pub record Output : Type 0 where
  pub key : String
  pub value : String

pub record Vcs : Type 0 where
  pub repository : String
  pub branch : String
  pub working_dir : String

pub record WorkspaceCacheSpec : Type 0 where
  pub storage_class : Option String
  pub size : String

pub record WorkspaceSpec : Type 0 where
  pub cache : WorkspaceCacheSpec
  pub verbosity : ℕ
  pub privileged_commands : List String
  pub terraform_version : String
  pub variables : List Variable
  pub ephemeral : Bool
  pub vcs : Vcs

pub data WorkspacePhase : Type 0 where
  unset initializing ready error unknown deleting : WorkspacePhase

pub record WorkspaceStatus : Type 0 where
  pub queue : List String
  pub active : String
  pub phase : WorkspacePhase
  pub outputs : List Output
  pub serial : Option ℕ
  pub backup_serial : Option ℕ
  pub conditions : List Condition

pub record Workspace : Type 0 where
  pub metadata : ObjectMeta
  pub open metadata use *
  pub spec : WorkspaceSpec
  pub status : WorkspaceStatus

abbrev is_some {ℓ} : {A : Type ℓ} → Option A → Bool
is_some none = false
is_some (some a) = true

unfoldable pub is_reconciled : ConditionApi → Workspace → Bool
is_reconciled m ws =
    is_some (m.find_status_condition ws.status.conditions workspace_ready_condition)

unfoldable pub workspace_pod_name : String → String
workspace_pod_name name = "workspace-" <> name

unfoldable pub pvc_name : Workspace → String
pvc_name ws = ws.name

unfoldable pub state_secret_name : Workspace → String
state_secret_name ws = "tfstate-default-" <> ws.name

unfoldable pub backup_object_name : Workspace → String
backup_object_name ws = ws.namespace <> ("/" <> (ws.name <> ".yaml"))

unfoldable pub workspace_builtins_config_map_name : String → String
workspace_builtins_config_map_name name = name <> "-builtins"

unfoldable pub is_privileged_command : Workspace → String → Bool
is_privileged_command ws cmd = contains_string ws.spec.privileged_commands cmd

abbrev is_approved : Option String → Bool
is_approved none = false
is_approved (some status) = status == "approved"

unfoldable pub is_run_approved : Workspace → Run → Bool
is_run_approved ws run = is_approved (lookup (approved_annotation_key run.name) ws.annotations)
