-- ===== src/Launcher/Laws.antt =====
-- A run that is launched and approved is one that the queue of its workspace takes.
use etok.Base.{
  arith, Bool, true, false, ◌≡◌, ◌∙◌, refl, sym, Option, none, some, ==_refl, if◌then◌else◌,
  Bool-cases, inl, inr,
}
use etok.Base.Dict.{lookup-insert}
use etok.Labels.{Version}
use etok.Slice.{contains_string}
use etok.Commands.{is_queueable}
use etok.Builders.Laws.{build-name, build-namespace}
use etok.Builders.{RunBuilder, build, run_builder, attached, with_verbosity, with_status}
use etok.Api.Run.{Run, RunStatus, is_done, approved_annotation_key}
use etok.Api.Workspace.{Workspace, is_privileged_command, is_run_approved}
use etok.Queue.{is_enqueued}
use etok.Kube
use etok.Kube.{Client, Error, Get}
use etok.Api.Meta.{Condition, has_status, is_true, workspace_ready_condition}
use etok.Launcher.{
  seeded, LauncherOptions, new_run, approved, approve_run, check_ready, check_workspace,
}

is_run_approved-approved :
    (ws : Workspace) (run : Run) → is_run_approved (approved ws run) run ≡ true
unfolding is_run_approved approved
is_run_approved-approved ws run =
    rw
      (
        lookup-insert (approved_annotation_key run.name) (approved_annotation_key run.name)
            "approved" ws.annotations,
        ==_refl (approved_annotation_key run.name),
      )
      refl

seeded-workspace :
    (status : Option RunStatus) (b : RunBuilder) → (seeded status b).workspace ≡ b.workspace
unfolding with_status
seeded-workspace none b = refl
seeded-workspace (some status) b = refl

seeded-command :
    (status : Option RunStatus) (b : RunBuilder) → (seeded status b).command ≡ b.command
unfolding with_status
seeded-command none b = refl
seeded-command (some status) b = refl

seeded-namespace :
    (status : Option RunStatus) (b : RunBuilder) → (seeded status b).namespace ≡ b.namespace
unfolding with_status
seeded-namespace none b = refl
seeded-namespace (some status) b = refl

seeded-name : (status : Option RunStatus) (b : RunBuilder) → (seeded status b).name ≡ b.name
unfolding with_status
seeded-name none b = refl
seeded-name (some status) b = refl

pub new_run-namespace :
    (version : Version) (o : LauncherOptions) → (new_run version o).namespace ≡ o.namespace
unfolding new_run run_builder attached with_verbosity
new_run-namespace version o = build-namespace version _ ∙ elim (Bool-cases o.attach) [
  | inl e ↦ rw (e) (seeded-namespace o.status _)
  | inr e ↦ rw (e) (seeded-namespace o.status _)
]

pub new_run-name : (version : Version) (o : LauncherOptions) → (new_run version o).name ≡ o.run_name
unfolding new_run run_builder attached with_verbosity
new_run-name version o = build-name version _ ∙ elim (Bool-cases o.attach) [
  | inl e ↦ rw (e) (seeded-name o.status _)
  | inr e ↦ rw (e) (seeded-name o.status _)
]

new_run-workspace :
    (version : Version) (o : LauncherOptions) → (new_run version o).workspace ≡ o.workspace
unfolding new_run build run_builder attached with_verbosity
new_run-workspace version o = elim (Bool-cases o.attach) [
  | inl e ↦ rw (e) (seeded-workspace o.status _)
  | inr e ↦ rw (e) (seeded-workspace o.status _)
]

new_run-command :
    (version : Version) (o : LauncherOptions) → (new_run version o).command ≡ o.command
unfolding new_run build run_builder attached with_verbosity
new_run-command version o = elim (Bool-cases o.attach) [
  | inl e ↦ rw (e) (seeded-command o.status _)
  | inr e ↦ rw (e) (seeded-command o.status _)
]

is_done-new_run :
    (version : Version) (o : LauncherOptions)
    → o.status ≡ none
    → is_done (new_run version o) ≡ false
unfolding new_run build run_builder attached with_verbosity is_done
is_done-new_run version o fresh = elim (Bool-cases o.attach) [
  | inl e ↦ rw (fresh, e) refl
  | inr e ↦ rw (fresh, e) refl
]

is_enqueued_lem :
    (ws : Workspace) (run : Run)
    → run.workspace ≡ ws.name
    → is_done run ≡ false
    → is_queueable run.command ≡ true
    → is_run_approved ws run ≡ true
    → is_enqueued ws run ≡ true
unfolding is_enqueued is_done contains_string is_run_approved
is_enqueued_lem ws run same going queueable approval =
    rw (same, ==_refl ws.name, going, queueable, approval)
      (go (contains_string ws.spec.privileged_commands run.command))
  where
    go : (b : Bool) → (if b then true else true) ≡ true
    go true = refl
    go false = refl

-- The run of a queueable command, launched in a workspace and approved in it, is taken into the
-- queue of the workspace, whether or not the command is privileged there.
pub is_enqueued-approved :
    (version : Version) (o : LauncherOptions) (ws : Workspace)
    → ws.name ≡ o.workspace
    → o.status ≡ none
    → is_queueable o.command ≡ true
    → is_enqueued (approved ws (new_run version o)) (new_run version o) ≡ true
unfolding approved
is_enqueued-approved version o ws same fresh queueable =
    is_enqueued_lem (approved ws run) run (new_run-workspace version o ∙ sym same)
      (is_done-new_run version o fresh) (rw (new_run-command version o) queueable)
      (is_run_approved-approved ws run)
  where
    run : Run
    run = new_run version o

check_ready-passed :
    (k : Client) (is_forbidden : Error → Bool) (o : LauncherOptions) (ws : Workspace) (run : Run)
    (ready : Option Condition) (s s' : k.State)
    → check_ready k is_forbidden o ws run ready s ≡ (none, s')
    → (has_status ready is_true ≡ true)
      × (is_privileged_command ws o.command ≡ true
          → (approve_run k is_forbidden o ws run s ≡ (none, s')))
unfolding check_ready
check_ready-passed k is_forbidden o ws run none s s' passed = ground arith
check_ready-passed k is_forbidden o ws run (some ready) s s' passed = ground arith

-- When the check of the workspace passes, the workspace that was read is ready, and if the command
-- is privileged there, the update that approves the run has succeeded and left the final state.
pub check_workspace-privileged :
    (k : Client) (is_forbidden : Error → Bool) (o : LauncherOptions) (ws : Workspace) (run : Run)
    (s s' : k.State)
    → k.get_workspace o.namespace o.workspace s ≡ Kube.Get.found ws
    → check_workspace k is_forbidden o run s ≡ (none, s')
    → (has_status
          (k.conditions.find_status_condition ws.status.conditions workspace_ready_condition)
          is_true
        ≡ true)
      × (is_privileged_command ws o.command ≡ true
          → (approve_run k is_forbidden o ws run s ≡ (none, s')))
unfolding check_workspace
check_workspace-privileged k is_forbidden o ws run s s' at passed =
    check_ready-passed k is_forbidden o ws run _ s s' (sym reads ∙ passed)
  where
    reads :
        check_workspace k is_forbidden o run s
        ≡ check_ready k is_forbidden o ws run
            (k.conditions.find_status_condition ws.status.conditions workspace_ready_condition)
            s
    reads = rw (check_workspace, at) refl
