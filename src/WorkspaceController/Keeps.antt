-- ===== src/WorkspaceController/Keeps.antt =====
-- What the updaters of a workspace leave alone: its metadata and its queue.
use etok.Base.{ℕ, String, ◌≡◌, List, arith}
use etok.Labels.{Version}
use etok.Api.Meta.{ObjectMeta}
use etok.Api.Workspace.{Workspace}
use etok.Kube.{Client}
use etok.WorkspaceController.State.{Services, Step, step, manage_state}
use etok.WorkspaceController.Manage.{
  handle_deletion, manage_builtins, manage_rbac_for_namespace, manage_pvc, manage_pod, create_owned,
  follow_claim, follow_pod, manage_found,
}

pub record View : Type 0 where
  pub metadata : ObjectMeta
  pub active : String
  pub queue : List String

abbrev pub view : Workspace → View
view ws = record { metadata = ws.metadata; active = ws.status.active; queue = ws.status.queue }

abbrev pub workspace_of : {S : Type 0} → Step S → Workspace
workspace_of (step ws bail failure s) = ws

abbrev pub Keeps : {S : Type 0} → (Workspace → S → Step S) → Type 0
Keeps {S} f = (ws : Workspace) (s : S) → view (workspace_of (f ws s)) ≡ view ws

module _ (k : Client) (services : Services k.State) (version : Version) (image : String)
    (now : ℕ) where
  pub manage_builtins-Keeps : Keeps (manage_builtins k services version image now)
  unfolding manage_builtins create_owned
  manage_builtins-Keeps ws s = ground arith

  pub manage_state-Keeps : Keeps (manage_state k services)
  unfolding manage_state
  manage_state-Keeps ws s = ground arith

  pub handle_deletion-Keeps : Keeps (handle_deletion k services version image now)
  unfolding handle_deletion
  handle_deletion-Keeps ws s = ground arith

  pub manage_rbac_for_namespace-Keeps :
      Keeps (manage_rbac_for_namespace k services version image now)
  unfolding manage_rbac_for_namespace
  manage_rbac_for_namespace-Keeps ws s = ground arith

  pub manage_pvc-Keeps : Keeps (manage_pvc k services version image now)
  unfolding manage_pvc create_owned follow_claim
  manage_pvc-Keeps ws s = ground arith

  pub manage_pod-Keeps : Keeps (manage_pod k services version image now)
  unfolding manage_pod manage_found create_owned follow_pod
  manage_pod-Keeps ws s = ground arith
