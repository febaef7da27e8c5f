-- ===== src/Tests/Workspaces.antt =====
-- The workspace controller.
use etok.Base.{true, ◌≡◌, refl, some, none, [], ◌∷◌, if◌then◌else◌}
use etok.Base.Dict.{lookup, erase}
use etok.Base.Text.{split}
use etok.Api.Run.{get_run_from_approval_annotation_key}
use etok.Api.Workspace.{Workspace, WorkspacePhase}
use etok.Kube
use etok.Kube.{Client, Error, Get, ok, err, Secret}
use etok.Kube.Pods.{pod_running}
use etok.Queue.{update_combined_queue}
use etok.RunController.Conditions.{set_phase}
use etok.WorkspaceController.State.{Services, Provider, step, manage_state}
use etok.WorkspaceController.Approvals.{prune_approvals, judge, judge_run}
use etok.WorkspaceController.Approvals.Laws.{is_stale, prune_approvals-lookup}
use etok.WorkspaceController.Reconcile.{run_chain, chain}
use etok.WorkspaceController.Keeps.{view, workspace_of}
use etok.WorkspaceController.Chain.{run_chain-deletion, run_chain-queue}
use etok.WorkspaceController.Backups.{IsBackedUp, manage_state-IsBackedUp}
use etok.Tests.Data.{
  api, api-IsDocumented, workspace, runs, version, secret, pod_in, Cluster, cluster, cluster_with,
}

abbrev provider : Provider Cluster
provider = record { backup = λ secret s. (none, s); restore = λ namespace name s. (ok none, s) }

abbrev services : Services Cluster
services = record {
  event = λ type reason message s. s;
  decode = λ file. ok (record { serial = 4; outputs = [] });
  provider = some provider;
}

abbrev up : Cluster
up =
    cluster_with Kube.Get.not_found (Kube.Get.found workspace)
      (Kube.Get.found (pod_in pod_running []))

abbrev deleted_workspace : Workspace
deleted_workspace = record workspace {
  metadata = record (workspace.metadata) { deletion_timestamp = some 2 };
}

run_chain-deletion_example :
    (ws' : Workspace) × (run_chain (chain cluster services version "image" 3) deleted_workspace up
      ≡ step ws' true none up)
    × (set_phase api ws' ≡ WorkspacePhase.deleting)
    × (view ws' ≡ view deleted_workspace)
run_chain-deletion_example =
    run_chain-deletion cluster services version "image" 3 api-IsDocumented deleted_workspace up refl

run_chain-queue_example :
    view (workspace_of (run_chain (chain cluster services version "image" 3) workspace up))
    ≡ view (update_combined_queue workspace runs)
run_chain-queue_example = run_chain-queue cluster services version "image" 3 workspace up refl refl

manage_state-IsBackedUp_example :
    IsBackedUp (workspace_of (manage_state cluster services workspace up))
unfolding manage_state lookup
manage_state-IsBackedUp_example =
    manage_state-IsBackedUp cluster services provider secret workspace up refl refl refl refl

prune_approvals-lookup_example :
    lookup "note" (("note", "kept") ∷ [])
    ≡ (if is_stale cluster up "dev" "note" then none else lookup "note" workspace.annotations)
unfolding prune_approvals judge get_run_from_approval_annotation_key split judge_run erase
prune_approvals-lookup_example =
    prune_approvals-lookup cluster up workspace (("note", "kept") ∷ []) "note" refl

-- No runs, and no backup provider.
abbrev idle : Client
idle = record cluster { list_runs = λ namespace s. ok [] }

abbrev no_provider : Services Cluster
no_provider = record services { provider = none }

abbrev ready_workspace : Workspace
ready_workspace = workspace_of (run_chain (chain idle no_provider version "image" 3) workspace up)
