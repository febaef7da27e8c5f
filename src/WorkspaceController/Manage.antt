-- ===== src/WorkspaceController/Manage.antt =====
-- The other status updaters of a workspace.
use etok.Base.{ℕ, String, true, false, Option, none, some}
use etok.Labels.{Version}
use etok.Api.Meta.{
  ObjectMeta, Condition, condition_false, ConditionApi, workspace_ready_condition, deletion_reason,
}
use etok.Api.Workspace.{Workspace, pvc_name, workspace_pod_name, workspace_builtins_config_map_name}
use etok.Queue.{update_combined_queue}
use etok.Kube
use etok.Kube.{
  Error, Get, Result, ok, err, Object, workspace_object, pod_object, config_map_object,
  claim_object, service_account_object, role_object, role_binding_object, ClaimPhase, claim_pending,
  claim_bound, claim_lost, claim_other, Client,
}
use etok.Kube.Pods.{Pod, PodPhase, pod_pending, pod_running, pod_succeeded, pod_failed, pod_unknown}
use etok.RunController.Conditions.{
  workspace_ready, workspace_failure, workspace_pending, workspace_unknown,
}
use etok.WorkspaceController.State.{Services, Step, step}
use etok.WorkspaceController.Resources.{
  new_builtins_for_ws, new_pvc_for_ws, new_role_for_namespace, new_role_binding_for_namespace,
  new_service_account_for_namespace, workspace_pod,
}

abbrev pub set_ready : ConditionApi → ℕ → Workspace → Condition → Workspace
set_ready m now ws c = record ws {
  status = record (ws.status) { conditions = m.set_status_condition now ws.status.conditions c };
}

abbrev pub deleting : Condition
deleting = record {
  type = workspace_ready_condition;
  status = condition_false;
  reason = deletion_reason;
  message = "Workspace is being deleted";
  last_transition_time = 0;
}

module _ (k : Client) (services : Services k.State) (version : Version) (image : String)
    (now : ℕ) where
  abbrev set_pending : String → Workspace → Workspace
  set_pending message ws = set_ready k.conditions now ws (workspace_pending message)

  unfoldable pub handle_deletion : Workspace → k.State → Step k.State
  handle_deletion ws s = elim (ws.deletion_timestamp) [
    | some t ↦ step (set_ready k.conditions now ws deleting) true none s
    | none ↦ step ws false none s
  ]

  unfoldable pub manage_queue : Workspace → k.State → Step k.State
  manage_queue ws s = elim (k.list_runs ws.namespace s) [
    | err e ↦ step ws false (some e) s
    | ok runs ↦ step (update_combined_queue ws runs) false none s
  ]

  -- The workspace is set as the controller of a new object, which is then created.
  unfoldable pub create_owned :
      Workspace → ObjectMeta → (ObjectMeta → Object) → String → k.State → Step k.State
  create_owned ws meta object message s =
      elim (k.set_controller_reference (workspace_object ws) meta) [
        | err e ↦ step ws false (some e) s
        | ok owned ↦
            let (failure, s') = k.create (object owned) s in
            elim failure [
              | some e ↦ step ws false (some e) s'
              | none ↦ step (set_pending message ws) false none s'
            ]
      ]

  unfoldable pub manage_builtins : Workspace → k.State → Step k.State
  unfolding create_owned
  manage_builtins ws s =
      elim (k.get_config_map ws.namespace (workspace_builtins_config_map_name ws.name) s) [
        | Kube.Get.not_found ↦
            let builtins = new_builtins_for_ws version ws in
            create_owned ws builtins.metadata
              (λ meta. config_map_object (record builtins { metadata = meta }))
              "Creating configmap containing terraform builtins" s
        | Kube.Get.failed e ↦ step ws false (some e) s
        | Kube.Get.found builtins ↦ step ws false none s
      ]

  manage_binding : Workspace → Option Error × k.State → Step k.State
  manage_binding ws (some e, s) = step ws false (some e) s
  manage_binding ws (none, s) =
      let (failure, s') =
        k.create_or_update (role_binding_object (new_role_binding_for_namespace version ws)) s in
      step ws false failure s'

  manage_role : Workspace → Option Error × k.State → Step k.State
  unfolding manage_binding
  manage_role ws (some e, s) = step ws false (some e) s
  manage_role ws (none, s) =
      manage_binding ws (k.create_or_update (role_object (new_role_for_namespace version ws)) s)

  unfoldable pub manage_rbac_for_namespace : Workspace → k.State → Step k.State
  unfolding manage_role
  manage_rbac_for_namespace ws s = elim (k.get_service_account ws.namespace "etok" s) [
    | Kube.Get.not_found ↦
        manage_role ws
          (k.create (service_account_object (new_service_account_for_namespace version ws)) s)
    | Kube.Get.failed e ↦ step ws false (some e) s
    | Kube.Get.found service_account ↦ manage_role ws (none, s)
  ]

  unfoldable pub follow_claim : Workspace → ClaimPhase → k.State → Step k.State
  follow_claim ws claim_bound s = step ws false none s
  follow_claim ws claim_lost s =
      step ws false (some "PVC has lost its persistent volume")
        (services.event "Warning" "CacheLost" "Cache persistent volume has been lost" s)
  follow_claim ws claim_pending s =
      step (set_pending "Cache's PVC in pending state" ws) false none s
  follow_claim ws claim_other s =
      step (set_ready k.conditions now ws (workspace_unknown "Cache PVC status unknown")) false
        (some "Cache PVC status unknown") s

  unfoldable pub manage_pvc : Workspace → k.State → Step k.State
  unfolding create_owned follow_claim
  manage_pvc ws s = elim (k.get_claim ws.namespace (pvc_name ws) s) [
    | Kube.Get.not_found ↦
        let pvc = new_pvc_for_ws version ws in
        create_owned ws pvc.metadata (λ meta. claim_object (record pvc { metadata = meta }))
          "Creating PVC" s
    | Kube.Get.failed e ↦ step ws false (some e) s
    | Kube.Get.found claim ↦ follow_claim ws claim.phase s
  ]

  unfoldable pub follow_pod : Workspace → PodPhase → k.State → Step k.State
  follow_pod ws pod_running s =
      step (set_ready k.conditions now ws (workspace_ready "Pod is running")) false none s
  follow_pod ws pod_pending s = step (set_pending "Pod in pending phase" ws) false none s
  follow_pod ws pod_failed s =
      step (set_ready k.conditions now ws (workspace_failure "Pod failed")) false none s
  follow_pod ws pod_succeeded s =
      step (set_ready k.conditions now ws (workspace_failure "Pod unexpectedly exited")) false none
        s
  follow_pod ws pod_unknown s =
      step (set_ready k.conditions now ws (workspace_unknown "Pod state unknown")) false
        (some "Pod state unknown") s

  unfoldable pub manage_found : Workspace → Get Pod → k.State → Step k.State
  unfolding create_owned follow_pod
  manage_found ws Kube.Get.not_found s =
      let pod = workspace_pod version ws image in
      create_owned ws pod.metadata (λ meta. pod_object (record pod { metadata = meta }))
        "Creating pod" s
  manage_found ws (Kube.Get.failed e) s = step ws false (some e) s
  manage_found ws (Kube.Get.found pod) s = follow_pod ws pod.status.phase s

  unfoldable pub manage_pod : Workspace → k.State → Step k.State
  unfolding manage_found
  manage_pod ws s = manage_found ws (k.get_pod ws.namespace (workspace_pod_name ws.name) s) s
