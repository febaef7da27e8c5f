-- ===== src/Launcher.antt =====
-- cmd/launcher/launcher.go: the run that is created, and the check of its workspace with the
-- approval of a privileged command.
pub mod Launch
pub mod Laws
use etok.Base.{ℕ, String, ◌<>◌, Bool, true, false, Option, none, some, List, [], ◌∷◌, if◌then◌else◌}
use etok.Base.Dict.{insert}
use etok.Builders.{RunBuilder, run_builder, attached, with_verbosity, with_status, build}
use etok.Labels.{Version}
use etok.Api.Meta.{ObjectMeta, Condition, ConditionApi, is_true, workspace_ready_condition}
use etok.Api.Run.{Run, RunStatus, approved_annotation_key}
use etok.Api.Workspace.{Workspace, is_privileged_command}
use etok.Kube
use etok.Kube.{Error, Get, Result, ok, err, run_object, Client}

pub record LauncherOptions : Type 0 where
  pub args : List String
  pub namespace : String
  pub workspace : String
  pub run_name : String
  pub command : String
  pub verbosity : ℕ
  pub attach : Bool
  pub status : Option RunStatus
  pub disable_resource_cleanup : Bool

abbrev pub seeded : Option RunStatus → RunBuilder → RunBuilder
seeded none b = b
seeded (some status) b = with_status status b

-- The run that `createRun` sends to the server.
unfoldable pub new_run : Version → LauncherOptions → Run
new_run version o =
    let b = seeded o.status (
      with_verbosity o.verbosity
        (run_builder o.namespace o.run_name o.workspace o.command o.args)) in
    build version (if o.attach then attached b else b)

-- The annotation that `approveRun` adds.
unfoldable pub approved : Workspace → Run → Workspace
approved ws run = record ws {
  metadata = record (ws.metadata) {
    annotations = insert (approved_annotation_key run.name) "approved" ws.annotations;
  };
}

-- The text of `klog.KObj`.
abbrev object_name : Workspace → String
object_name ws = ws.namespace <> ("/" <> ws.name)

module _ (k : Client) (is_forbidden : Error → Bool) (o : LauncherOptions) where
  abbrev approval_error : Error → Error
  approval_error e =
      if is_forbidden e
      then "attempted to run privileged command " <> (o.command <> ": you are not authorised")
      else "failed to update workspace to approve privileged command: " <> e

  answered : Result Workspace × k.State → Option Error × k.State
  answered (err e, s) = (some (approval_error e), s)
  answered (ok ws, s) = (none, s)

  unfoldable pub approve_run : Workspace → Run → k.State → Option Error × k.State
  unfolding answered approved
  approve_run ws run s = answered (k.update_workspace (approved ws run) s)

  check_ready : Workspace → Run → Option Condition → k.State → Option Error × k.State
  unfolding approve_run
  check_ready ws run none s =
      (some ("workspace not ready: " <> (object_name ws <> ": ready condition not found")), s)
  check_ready ws run (some ready) s =
      let approval = approve_run ws run s in
      if is_true ready.status
      then (if is_privileged_command ws o.command then approval else (none, s))
      else (some ("workspace not ready: " <> (object_name ws <> (": " <> ready.message))), s)

  unfoldable pub check_workspace : Run → k.State → Option Error × k.State
  unfolding check_ready
  check_workspace run s = elim (k.get_workspace o.namespace o.workspace s) [
    | Kube.Get.not_found ↦
        (some ("workspace not found: " <> (o.namespace <> ("/" <> o.workspace))), s)
    | Kube.Get.failed e ↦ (some e, s)
    | Kube.Get.found ws ↦
        check_ready ws run
          (k.conditions.find_status_condition ws.status.conditions workspace_ready_condition) s
  ]
