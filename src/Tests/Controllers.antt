-- ===== src/Tests/Controllers.antt =====
-- The run controller.
use etok.Base.{ℕ, true, false, ◌≡◌, refl, Option, some, none, [], ◌∷◌}
use etok.Commands.{is_queueable}
use etok.Api.Run.{Run, RunPhase, is_done}
use etok.Kube
use etok.Kube.{Error, Get, run_object}
use etok.Kube.Pods.{
  pod_succeeded, ContainerState, ContainerStatus, Terminated, container_status_by_name,
}
use etok.RunPod.{runner_container_name}
use etok.RunController.Conditions.{set_run_phase}
use etok.RunController.Manage.{Step, step, panic, follow_pod}
use etok.RunController.Reconcile.{done, process_chain, reconcile}
use etok.RunController.Turns.{process_chain-waits}
use etok.RunController.Laws.{reconcile-workspace_not_found}
use etok.Handlers.Verdict.{modified}
use etok.Monitors.{run_exit_monitor, exit_monitor}
use etok.Monitors.Laws.{run_exit_monitor-exit_monitor}
use etok.Tests.Data.{
  modified-ne_deleted, ne, api, api-IsDocumented, run_named, workspace, version, pod_in, Cluster,
  cluster, cluster_with,
}

abbrev active_run : Run
active_run = run_named "a" "init"

abbrev waiting_run : Run
waiting_run = run_named "b" "apply"

abbrev empty : Cluster
empty = cluster_with (Kube.Get.found waiting_run) Kube.Get.not_found Kube.Get.not_found

process_chain-waits_example :
    (r : Run) × (e : Option Error) × (process_chain cluster version "image" 3 4 waiting_run
        workspace empty
      ≡ step r true e empty)
unfolding is_queueable
process_chain-waits_example =
    process_chain-waits cluster api-IsDocumented version "image" 3 4 waiting_run workspace empty
      refl (ne "a" "b" refl) refl

abbrev no_error : Option Error
no_error = none

abbrev run_of : Step ℕ → Run
run_of (step r bail failure s) = r
run_of panic = active_run

abbrev runner : ContainerState → ContainerStatus
runner state = record { name = "runner"; state = state }

abbrev exited : Terminated
exited = record { exit_code = 2; message = "" }

abbrev terminated : ContainerStatus
terminated = runner (record { running = false; terminated = some exited })

abbrev unset : ContainerStatus
unset = runner (record { running = false; terminated = none })

-- Active run as its pod's exit leaves it.
abbrev ended_run : Run
ended_run =
    run_of (follow_pod api {S = ℕ} 3 4 active_run (pod_in pod_succeeded (terminated ∷ [])) 0)

run_exit_monitor-exit_monitor_example :
    run_exit_monitor "a" ((modified, ended_run) ∷ [])
    ≡ exit_monitor "a" runner_container_name
        ((modified, pod_in pod_succeeded (terminated ∷ [])) ∷ [])
unfolding follow_pod container_status_by_name
run_exit_monitor-exit_monitor_example =
    run_exit_monitor-exit_monitor api api-IsDocumented {S = ℕ} 3 4 active_run ended_run
      (pod_in pod_succeeded (terminated ∷ [])) 0 terminated exited modified [] []
      modified-ne_deleted refl refl refl refl refl

reconcile-workspace_not_found_example :
    (r : Run) × (reconcile cluster version "image" 3 4 "dev" "b" empty
      ≡ (let (e, t) = cluster.update_status (run_object r) empty in done e t))
    × (is_done r ≡ true)
    × (set_run_phase api r ≡ RunPhase.failed)
    × (r.phase ≡ RunPhase.unset)
unfolding is_done
reconcile-workspace_not_found_example =
    reconcile-workspace_not_found cluster version "image" 3 4 "dev" "b" empty waiting_run
      api-IsDocumented refl refl refl
