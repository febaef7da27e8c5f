-- ===== src/WorkspaceController/Ready.antt =====
-- The phase of a workspace, and what a ready workspace has.
use etok.Base.{ℕ, String, ◌≡◌, sym, ap, List, [], ◌∷◌}
use etok.Labels.{Version}
use etok.Api.Meta.{Condition, ConditionApi, IsDocumented, workspace_ready_condition}
use etok.Api.Meta.Laws.{stored-reason, find-set_self}
use etok.Api.Workspace.{Workspace, workspace_pod_name}
use etok.Kube
use etok.Kube.{Error, Get, Result, ok, err, Client}
use etok.Kube.Pods.{Pod, pod_running}
use etok.RunController.Conditions.{set_phase, phase_of_ready}
use etok.WorkspaceController.State.{Services, manage_state}
use etok.WorkspaceController.Manage.{
  set_ready, handle_deletion, manage_queue, manage_builtins, manage_rbac_for_namespace, manage_pvc,
}
use etok.WorkspaceController.Reconcile.{Updater}

-- The phase is that of the reason of the ready condition just set.
pub set_phase-set_ready :
    (m : ConditionApi) (doc : IsDocumented m) (now : ℕ) (ws : Workspace) (c : Condition)
    → c.type ≡ workspace_ready_condition
    → set_phase m (set_ready m now ws c) ≡ phase_of_ready c.reason
unfolding set_phase
set_phase-set_ready m doc now ws c e =
    rw (sym e, find-set_self m doc now ws.status.conditions c)
      (ap phase_of_ready
        (stored-reason now (m.find_status_condition ws.status.conditions c.type) c))

module _ (k : Client) (services : Services k.State) (version : Version) (image : String)
    (now : ℕ) where
  abbrev pub HasRunningPod : Workspace → k.State → Type 0
  HasRunningPod ws s =
      (pod : Pod) × (k.get_pod ws.namespace (workspace_pod_name ws.name) s ≡ Kube.Get.found pod)
      × (pod.status.phase ≡ pod_running)

  abbrev before : List (Updater k.State)
  before =
      handle_deletion k services version image now
      ∷ manage_queue k services version image now
      ∷ manage_builtins k services version image now
      ∷ manage_rbac_for_namespace k services version image now
      ∷ manage_state k services
      ∷ manage_pvc k services version image now
      ∷ []
