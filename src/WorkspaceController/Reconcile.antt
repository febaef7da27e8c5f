-- ===== src/WorkspaceController/Reconcile.antt =====
-- `Reconcile` of the workspace controller.
use etok.Base.{ℕ, String, true, false, Option, none, some, List, [], ◌∷◌, ◌++◌, if◌then◌else◌}
use etok.Slice.{contains_string}
use etok.Labels.{Version}
use etok.Api.Workspace.{Workspace, WorkspaceStatus}
use etok.Kube
use etok.Kube.{Error, Get, Result, ok, err, workspace_object, Client}
use etok.RunController.Conditions.{set_phase}
use etok.RunController.Reconcile.{Outcome, done, panicked}
use etok.WorkspaceController.Approvals.{
  Pruned, pruned, failed, crashed, prune_approvals, equal_maps,
}
use etok.WorkspaceController.State.{Services, Step, step, manage_state}
use etok.WorkspaceController.Manage.{
  handle_deletion, manage_queue, manage_builtins, manage_rbac_for_namespace, manage_pvc, manage_pod,
}

abbrev pub Updater : Type 0 → Type 0
Updater S = Workspace → S → Step S

module _ {S : Type 0} where
  -- What is left of the chain runs when an updater neither bails out nor fails.
  unfoldable pub proceed : (Workspace → S → Step S) → Step S → Step S
  proceed rest (step ws true failure s) = step ws true failure s
  proceed rest (step ws false (some e) s) = step ws false (some e) s
  proceed rest (step ws false none s) = rest ws s

  unfoldable pub run_chain : List (Updater S) → Workspace → S → Step S
  unfolding proceed
  run_chain [] ws s = step ws false none s
  run_chain (f ∷ fs) ws s = proceed (run_chain fs) (f ws s)

module _ (k : Client) (services : Services k.State) (version : Version) (image : String)
    (now : ℕ) where
  -- The chain that `NewWorkspaceReconciler` builds.
  abbrev pub chain : List (Updater k.State)
  chain =
      handle_deletion k services version image now
      ∷ manage_queue k services version image now
      ∷ manage_builtins k services version image now
      ∷ manage_rbac_for_namespace k services version image now
      ∷ manage_state k services
      ∷ manage_pvc k services version image now
      ∷ manage_pod k services version image now
      ∷ []

  unfoldable pub update_status :
      String → String → WorkspaceStatus → k.State → Option Error × k.State
  update_status namespace name status s = elim (k.get_workspace namespace name s) [
    | Kube.Get.not_found ↦ (some "not found", s)
    | Kube.Get.failed e ↦ (some e, s)
    | Kube.Get.found ws ↦ k.update_status (workspace_object (record ws { status = status })) s
  ]

  abbrev first_error : Option Error → Option Error → Option Error
  first_error (some e) backoff = some e
  first_error none backoff = backoff

  unfoldable pub finish : String → String → Step k.State → Outcome k.State
  unfolding update_status
  finish namespace name (step ws bail backoff s) =
      let status = record (ws.status) { phase = set_phase k.conditions ws } in
      let (failure, s') = update_status namespace name status s in
      done (first_error failure backoff) s'

  abbrev process : String → String → Workspace → k.State → Outcome k.State
  process namespace name ws s = finish namespace name (run_chain chain ws s)

  -- An update fills the workspace in with what the server answers.
  updated : String → String → Result Workspace × k.State → Outcome k.State
  updated namespace name (err e, s) = done (some e) s
  updated namespace name (ok ws, s) = process namespace name ws s

  approve : String → String → Workspace → Pruned → k.State → Outcome k.State
  unfolding updated
  approve namespace name ws (failed e) s = done (some e) s
  approve namespace name ws crashed s = panicked
  approve namespace name ws (pruned annotations) s =
      let write = updated namespace name (
        k.update_workspace
          (record ws { metadata = record (ws.metadata) { annotations = annotations } }) s) in
      if equal_maps ws.annotations annotations then process namespace name ws s else write

  finalized : String → String → Result Workspace × k.State → Outcome k.State
  unfolding approve
  finalized namespace name (err e, s) = done (some e) s
  finalized namespace name (ok ws, s) = approve namespace name ws (prune_approvals k ws s) s

  abbrev finalizer : String
  finalizer = "foregroundDeletion"

  unfoldable pub add_finalizers : Workspace → Workspace
  add_finalizers ws = if contains_string ws.finalizers finalizer then ws else record ws {
    metadata = record (ws.metadata) { finalizers = ws.finalizers ++ (finalizer ∷ []) };
  }

  reconcile_workspace : String → String → Workspace → k.State → Outcome k.State
  unfolding finalized
  reconcile_workspace namespace name ws s = finalized namespace name (
      if contains_string ws.finalizers finalizer
      then (ok ws, s)
      else k.update_workspace (add_finalizers ws) s)

  unfoldable pub reconcile : String → String → k.State → Outcome k.State
  unfolding reconcile_workspace
  reconcile namespace name s = elim (k.get_workspace namespace name s) [
    | Kube.Get.not_found ↦ done none s
    | Kube.Get.failed e ↦ done (some e) s
    | Kube.Get.found ws ↦ reconcile_workspace namespace name ws s
  ]
