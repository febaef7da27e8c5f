-- ===== src/WorkspaceController/State.antt =====
-- pkg/controllers/workspace_state.go, `manageState` and `restore`: the terraform state of a
-- workspace and its backup.
use etok.Base.{
  ℕ, String, ◌<>◌, Bool, false, ◌||◌, Option, none, some, [], map, if◌then◌else◌, nat_eq,
}
use etok.Base.Dict.{Dict, lookup}
use etok.Base.FilePath.{itoa}
use etok.Api.Meta.{ObjectMeta}
use etok.Api.Workspace.{Workspace, Output, state_secret_name}
use etok.Kube
use etok.Kube.{Error, Get, Result, ok, err, Secret, secret_object, workspace_object, Client}

pub record TerraformState : Type 0 where
  pub serial : ℕ
  pub outputs : Dict String

-- The interface of pkg/backup.
pub record Provider (S : Type 0) : Type 0 where
  pub backup : Secret → S → Option Error × S
  pub restore : String → String → S → Result (Option Secret) × S

-- What the controller has beside the client: the event recorder, the decompression and decoding
-- of a state file, and the backup provider that it may be given.
pub record Services (S : Type 0) : Type 0 where
  pub event : String → String → String → S → S
  pub decode : String → Result TerraformState
  pub provider : Option (Provider S)

-- An updater returns the workspace with its new status, whether to bail out, an error, and the
-- state of the cluster.
pub data Step (S : Type 0) : Type 0 where
  step : Workspace → Bool → Option Error → S → Step S

abbrev pub set_backup_serial : ℕ → Workspace → Workspace
set_backup_serial serial ws = record ws {
  status = record (ws.status) { backup_serial = some serial };
}

abbrev output_of : (String × String) → Output
output_of (key, value) = record { key = key; value = value }

-- The outputs are written whether or not they differ: the test changes nothing.
abbrev pub report : TerraformState → Workspace → Workspace
report state ws = record ws {
  status = record (ws.status) { serial = some state.serial; outputs = map output_of state.outputs };
}

module _ (k : Client) (services : Services k.State) where
  read_data : Option String → Result TerraformState
  read_data none = err "Expected key tfstate not found in state secret"
  read_data (some file) = services.decode file

  unfoldable pub read_state : Secret → Result TerraformState
  unfolding read_data
  read_state secret = read_data (lookup "tfstate" secret.content)

  unfoldable pub send_warning_event : Error → Workspace → String → k.State → Step k.State
  send_warning_event e ws reason s = step ws false (some e) (services.event "Warning" reason e s)

  -- The secret has been created.
  restored : Workspace → Result TerraformState → k.State → Step k.State
  unfolding send_warning_event
  restored ws (err e) s = send_warning_event e ws "RestoreError" s
  restored ws (ok state) s =
      step (set_backup_serial state.serial ws) false none
        (services.event "Normal" "RestoreSuccessful" ("Restored state #" <> itoa state.serial) s)

  abbrev blank : Secret → Secret
  blank secret = record secret {
    resource_version = "";
    metadata = record (secret.metadata) { owner_references = [] };
  }

  recreate : Workspace → Secret → k.State → Step k.State
  unfolding restored read_state
  recreate ws secret s =
      let (failure, s') = k.create (secret_object (blank secret)) s in
      elim failure [
        | some e ↦ step ws false (some e) s'
        | none ↦ restored ws (read_state (blank secret)) s'
      ]

  unfoldable pub restore : Provider k.State → Workspace → k.State → Step k.State
  unfolding recreate send_warning_event
  restore provider ws s =
      let (found, s') = provider.restore ws.namespace (state_secret_name ws) s in
      elim found [
        | err e ↦ send_warning_event e ws "RestoreError" s'
        | ok none ↦
            step ws false none
              (services.event "Normal" "RestoreSkipped" "There is no state to restore" s')
        | ok (some secret) ↦ recreate ws secret s'
      ]

  no_state : Option (Provider k.State) → Workspace → k.State → Step k.State
  unfolding restore
  no_state none ws s = step ws false none s
  no_state (some provider) ws s = restore provider ws s

  abbrev pub is_current : Option ℕ → ℕ → Bool
  is_current none serial = false
  is_current (some backup_serial) serial = nat_eq backup_serial serial

  unfoldable pub backed_up : Workspace → ℕ → Option Error → k.State → Step k.State
  unfolding send_warning_event
  backed_up ws serial (some e) s = send_warning_event e ws "BackupError" s
  backed_up ws serial none s =
      step (set_backup_serial serial ws) false none
        (services.event "Normal" "BackupSuccessful" ("Backed up state #" <> itoa serial) s)

  unfoldable pub back_up :
      Option (Provider k.State) → Workspace → Secret → ℕ → k.State → Step k.State
  unfolding backed_up
  back_up none ws secret serial s = step ws false none s
  back_up (some provider) ws secret serial s =
      if ws.spec.ephemeral || is_current ws.status.backup_serial serial
      then step ws false none s
      else let (failure, s') = provider.backup secret s in backed_up ws serial failure s'

  unfoldable pub report_state : Workspace → Secret → Result TerraformState → k.State → Step k.State
  unfolding back_up
  report_state ws secret (err e) s = step ws false (some e) s
  report_state ws secret (ok state) s =
      back_up services.provider (report state ws) secret state.serial s

  unfoldable pub owned_state : Workspace → Secret → Option Error × k.State → Step k.State
  unfolding report_state read_state
  owned_state ws secret (some e, s) = step ws false (some e) s
  owned_state ws secret (none, s) = report_state ws secret (read_state secret) s

  -- The state secret was found; the workspace becomes its owner.
  unfoldable pub own_state : Workspace → Secret → Result ObjectMeta → k.State → Step k.State
  unfolding owned_state
  own_state ws secret (err e) s = step ws false (some e) s
  own_state ws secret (ok meta) s =
      let owned = record secret { metadata = meta } in
      owned_state ws owned (k.update (secret_object owned) s)

  unfoldable pub manage_state : Workspace → k.State → Step k.State
  unfolding no_state own_state
  manage_state ws s = elim (k.get_secret ws.namespace (state_secret_name ws) s) [
    | Kube.Get.not_found ↦ no_state services.provider ws s
    | Kube.Get.failed e ↦ step ws false (some e) s
    | Kube.Get.found secret ↦
        own_state ws secret (k.set_owner_reference (workspace_object ws) secret.metadata) s
  ]
