-- ===== src/WorkspaceController/Backups.antt =====
-- The backup of the terraform state of a workspace.
use etok.Base.{Bool, false, ◌≡◌, ◌≢◌, sym, ap, ◌∙◌, Option, none, some, arith}
use etok.Api.Meta.{ObjectMeta}
use etok.Api.Workspace.{Workspace, state_secret_name}
use etok.Kube
use etok.Kube.{Error, Get, Result, ok, err, Secret, workspace_object, Client}
use etok.WorkspaceController.State.{
  Services, Provider, step, TerraformState, report, back_up, backed_up, report_state, owned_state,
  own_state, read_state, manage_state, send_warning_event,
}

abbrev pub IsBackedUp : Workspace → Type 0
IsBackedUp ws = (ws.status.backup_serial ≡ ws.status.serial) × (ws.status.serial ≢ none)

module _ (k : Client) (services : Services k.State) where
  back_up-IsBackedUp :
      (provider : Provider k.State) (state : TerraformState) (ws : Workspace) (secret : Secret)
      (s : k.State) {ws' : Workspace} {bail : Bool} {s' : k.State}
      → ws.spec.ephemeral ≡ false
      → back_up k services (some provider) (report state ws) secret state.serial s
        ≡ step ws' bail none s'
      → IsBackedUp ws'
  unfolding back_up backed_up send_warning_event
  back_up-IsBackedUp provider state ws secret s lasting e = (ground arith, ground arith)

  report_state-IsBackedUp :
      (provider : Provider k.State) (secret : Secret) (ws : Workspace) (r : Result TerraformState)
      (s : k.State) {ws' : Workspace} {bail : Bool} {s' : k.State}
      → services.provider ≡ some provider
      → ws.spec.ephemeral ≡ false
      → report_state k services ws secret r s ≡ step ws' bail none s'
      → IsBackedUp ws'
  unfolding report_state
  report_state-IsBackedUp provider secret ws (err x) s p lasting e = absurd (ground arith)
  report_state-IsBackedUp provider secret ws (ok state) s p lasting e =
      back_up-IsBackedUp provider state ws secret s lasting
        (ap (λ o. back_up k services o (report state ws) secret state.serial s) (sym p) ∙ e)

  owned_state-IsBackedUp :
      (provider : Provider k.State) (secret : Secret) (ws : Workspace) (r : Option Error × k.State)
      {ws' : Workspace} {bail : Bool} {s' : k.State}
      → services.provider ≡ some provider
      → ws.spec.ephemeral ≡ false
      → owned_state k services ws secret r ≡ step ws' bail none s'
      → IsBackedUp ws'
  unfolding owned_state
  owned_state-IsBackedUp provider secret ws (some x, s) p lasting e = absurd (ground arith)
  owned_state-IsBackedUp provider secret ws (none, s) p lasting e =
      report_state-IsBackedUp provider secret ws (read_state k services secret) s p lasting e

  own_state-IsBackedUp :
      (provider : Provider k.State) (secret : Secret) (ws : Workspace) (r : Result ObjectMeta)
      (s : k.State) {ws' : Workspace} {bail : Bool} {s' : k.State}
      → services.provider ≡ some provider
      → ws.spec.ephemeral ≡ false
      → own_state k services ws secret r s ≡ step ws' bail none s'
      → IsBackedUp ws'
  unfolding own_state
  own_state-IsBackedUp provider secret ws (err x) s p lasting e = absurd (ground arith)
  own_state-IsBackedUp provider secret ws (ok meta) s p lasting e =
      owned_state-IsBackedUp provider (record secret { metadata = meta }) ws _ p lasting e

  -- When a workspace is not ephemeral, there is a backup provider and its state secret exists,
  -- then unless `manageState` fails, the serial number of the state and that of its backup are
  -- recorded and equal.
  pub manage_state-IsBackedUp :
      (provider : Provider k.State) (secret : Secret) (ws : Workspace) (s : k.State)
      {ws' : Workspace} {bail : Bool} {s' : k.State}
      → services.provider ≡ some provider
      → ws.spec.ephemeral ≡ false
      → k.get_secret ws.namespace (state_secret_name ws) s ≡ Kube.Get.found secret
      → manage_state k services ws s ≡ step ws' bail none s'
      → IsBackedUp ws'
  unfolding manage_state
  manage_state-IsBackedUp provider secret ws s p lasting found e =
      own_state-IsBackedUp provider secret ws
        (k.set_owner_reference (workspace_object ws) secret.metadata) s p lasting
        (rw (found, manage_state) at e)
