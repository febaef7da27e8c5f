-- ===== src/System.antt =====
-- A namespace as both controllers change it: pkg/controllers/run_controller.go on its runs and the
-- queue of pkg/controllers/workspace_controller.go on one of its workspaces, each of whose
-- reconciles is one step, in any order and between the steps of users and of the cluster. A run whose
-- workspace is not found is failed before the updaters, which is left out.
pub mod Listed
pub mod Fair
pub mod Reconciled
pub mod Exclusion
use etok.Base.{
  ℕ, String, Bool, true, false, Option, none, some, List, [], ◌∷◌, ◌≡◌, ◌≢◌, ◌↔◌, ◌⊎◌, contains,
  Distinct, get_elem?, set_elem, remove_elem,
}
use etok.Base.Dict.{Dict}
use etok.Labels.{Version}
use etok.Api.Run.{Run, is_done, approved_annotation_key}
use etok.Api.Workspace.{Workspace}
use etok.Kube
use etok.Kube.{Error, Get, ok, Client, Object, pod_object}
use etok.Kube.Pods.{Pod}
use etok.Api.Meta.{ObjectMeta}
use etok.Launcher.{approved}
use etok.Queue.{update_combined_queue}
use etok.Queue.Laws.{names}
use etok.RunController.Conditions.{set_run_phase}
use etok.RunController.Pods.{HasPod}
use etok.RunController.Manage.{step}
use etok.RunController.Reconcile.{process_chain}
use etok.WorkspaceController.Approvals.{pruned, prune_approvals}
use etok.WorkspaceController.Approvals.Laws.{is_stale}

pub record System (S : Type 0) : Type 0 where
  pub workspace : Workspace
  pub runs : List Run
  pub cluster : S

-- A workspace without a queue, and no runs.
abbrev pub IsStart : {S : Type 0} → System S → Type 0
IsStart w = (w.workspace.status.active ≡ "") × (w.workspace.status.queue ≡ []) × (w.runs ≡ [])

-- A run with the status that `updateStatus` writes for it.
unfoldable pub written : Client → Run → Run → Run
written k run r = record run {
  run_status = record (r.run_status) { phase = set_run_phase k.conditions r };
}

abbrev pub Listed : List Run → Run → Type 0
Listed runs run = (i : ℕ) × (get_elem? runs i ≡ some run)

module _ (k : Client) (version : Version) (image : String) where
  -- A run that is not done passes the updaters, with the workspace that it names.
  pub record Reconciliation (w : System k.State) : Type 0 where
    pub now : ℕ
    pub later : ℕ
    pub index : ℕ
    pub ws : Workspace
    pub run : Run
    pub left : Run
    pub bail : Bool
    pub failure : Option Error
    pub after : k.State
    pub listed : get_elem? w.runs index ≡ some run
    pub going : is_done run ≡ false
    pub own : run.workspace ≡ w.workspace.name → ws ≡ w.workspace
    pub answer :
        process_chain k version image now later run ws w.cluster ≡ step left bail failure after

  -- A step:
  --   queue_updated: the queue is updated with the runs of the namespace, listed in any order;
  --   run_reconciled: a run is reconciled, and its status is written;
  --   run_interrupted: the same, but the status is not written;
  --   run_approved: a launch approves a run;
  --   approvals_pruned: the approvals of runs that are gone or completed are removed;
  --   run_created, run_deleted: a user creates a run, under a name that no run, no pod and no active
  --   entry has, or deletes one;
  --   cluster_changed: the cluster changes otherwise, and adds no pod of a listed run.
  pub data Step (w w' : System k.State) : Type 0 where
    queue_updated :
        (listed : List Run)
        → Distinct (names listed)
        → ((run : Run) → Listed listed run ↔ Listed w.runs run)
        → w' ≡ record w { workspace = update_combined_queue w.workspace listed }
        → Step w w'
    run_reconciled :
        (c : Reconciliation w)
        → w'
          ≡ record w { runs = set_elem c.index (written k c.run c.left) w.runs; cluster = c.after }
        → Step w w'
    run_interrupted : (c : Reconciliation w) → w' ≡ record w { cluster = c.after } → Step w w'
    run_approved : (run : Run) → w' ≡ record w { workspace = approved w.workspace run } → Step w w'
    approvals_pruned :
        (left : Dict String)
        → prune_approvals k w.workspace w.cluster ≡ pruned left
        → ((run : Run)
            → Listed w.runs run
            → is_done run ≡ false
            → is_stale k w.cluster w.workspace.namespace (approved_annotation_key run.name) ≡ false)
        → w' ≡ record w {
          workspace = record (w.workspace) {
            metadata = record (w.workspace.metadata) { annotations = left };
          };
        }
        → Step w w'
    run_created :
        (run : Run)
        → run.name ≢ ""
        → contains (names w.runs) run.name ≡ false
        → w.workspace.status.active ≢ run.name
        → ¬ HasPod k w.cluster run
        → w' ≡ record w { runs = run ∷ w.runs }
        → Step w w'
    run_deleted : (i : ℕ) → w' ≡ record w { runs = remove_elem i w.runs } → Step w w'
    cluster_changed :
        (s : k.State)
        → ((run : Run) → Listed w.runs run → HasPod k s run → HasPod k w.cluster run)
        → w' ≡ record w { cluster = s }
        → Step w w'

  pub data Steps (w : System k.State) : System k.State → Type 0 where
    here : Steps w w
    next : {u w' : System k.State} → Steps w u → Step u w' → Steps w w'
