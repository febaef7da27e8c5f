-- ===== src/RunController/Reconcile.antt =====
-- `Reconcile` of the run controller.
use etok.Base.{ℕ, String, Bool, true, false, Option, none, some, if◌then◌else◌}
use etok.Labels.{Version}
use etok.Api.Meta.{workspace_not_found_reason}
use etok.Api.Run.{Run, RunStatus, is_done}
use etok.Api.Workspace.{Workspace}
use etok.Kube
use etok.Kube.{Error, Get, Result, ok, err, Object, run_object, workspace_object, Client}
use etok.RunController.Conditions.{run_failed, set_run_phase}
use etok.RunController.Archive.{is_already_owner, set_owner_of_archive}
use etok.RunController.Manage.{Step, step, panic, set_condition, manage_queue, manage_pod}

-- The error that a reconcile returns, and the state that it leaves.
pub data Outcome (S : Type 0) : Type 0 where
  done : Option Error → S → Outcome S
  panicked : Outcome S

module _ (k : Client) (version : Version) (image : String) (now later : ℕ) where
  -- The status is written to a fresh copy of the run.
  unfoldable pub update_status : String → String → RunStatus → k.State → Option Error × k.State
  update_status namespace name status s = elim (k.get_run namespace name s) [
    | Kube.Get.not_found ↦ (some "not found", s)
    | Kube.Get.failed e ↦ (some e, s)
    | Kube.Get.found run ↦ k.update_status (run_object (record run { run_status = status })) s
  ]

  -- The chain of `NewRunReconciler`, `manageQueue` then `managePod`: an error or a bail ends it.
  unfoldable pub next_pod : Workspace → Run → Bool → Option Error → k.State → Step k.State
  next_pod ws run true failure s = step run true failure s
  next_pod ws run false (some e) s = step run false (some e) s
  next_pod ws run false none s = manage_pod k version image now later run ws s

  unfoldable pub process_chain : Run → Workspace → k.State → Step k.State
  unfolding next_pod
  process_chain run ws s = elim (manage_queue k.conditions now later run ws s) [
    | panic ↦ panic
    | step run' bail failure s' ↦ next_pod ws run' bail failure s'
  ]

  abbrev first_error : Option Error → Option Error → Option Error
  first_error (some e) backoff = some e
  first_error none backoff = backoff

  unfoldable pub finish : String → String → Step k.State → Outcome k.State
  unfolding update_status
  finish namespace name panic = panicked
  finish namespace name (step run bail backoff s) =
      let status = record (run.run_status) { phase = set_run_phase k.conditions run } in
      let (failure, s') = update_status namespace name status s in
      done (first_error failure backoff) s'

  -- The workspace was found and owns the run.
  abbrev process : String → String → Run → Workspace → k.State → Outcome k.State
  process namespace name run ws s =
      let (failure, s') = set_owner_of_archive k run s in
      elim failure [
        | some e ↦ done (some e) s'
        | none ↦ finish namespace name (process_chain run ws s')
      ]

  own_run : String → String → Run → Workspace → k.State → Outcome k.State
  own_run namespace name run ws s =
      if is_already_owner k ws.metadata (run_object run) run.metadata
      then process namespace name run ws s
      else elim (k.set_owner_reference (workspace_object ws) run.metadata) [
        | err e ↦ done (some e) s
        | ok meta ↦
            let (updated, s') = k.update_run (record run { metadata = meta }) s in
            elim updated [ err e ↦ done (some e) s' | ok run' ↦ process namespace name run' ws s' ]
      ]

  fail_run : String → String → Run → k.State → Outcome k.State
  unfolding update_status
  fail_run namespace name run s =
      let failed_run =
        set_condition k.conditions now run
          (run_failed workspace_not_found_reason "Workspace not found") in
      let (failure, s') = update_status namespace name failed_run.run_status s in done failure s'

  reconcile_run : String → String → Run → k.State → Outcome k.State
  unfolding own_run fail_run
  reconcile_run namespace name run s =
      if is_done run then done none s else elim (k.get_workspace namespace run.workspace s) [
        | Kube.Get.not_found ↦ fail_run namespace name run s
        | Kube.Get.failed e ↦ done (some e) s
        | Kube.Get.found ws ↦ own_run namespace name run ws s
      ]

  unfoldable pub reconcile : String → String → k.State → Outcome k.State
  unfolding reconcile_run
  reconcile namespace name s = elim (k.get_run namespace name s) [
    | Kube.Get.not_found ↦ done none s
    | Kube.Get.failed e ↦ done (some e) s
    | Kube.Get.found run ↦ reconcile_run namespace name run s
  ]
