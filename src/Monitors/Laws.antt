-- ===== src/Monitors/Laws.antt =====
-- The two exit monitors, on a pod and on its run.
use etok.Base.{
  ℕ, ◌≡◌, ◌≢◌, refl, sym, ◌∙◌, String, true, false, none, some, List, ◌∷◌, arith, eq_iff,
}
use etok.Api.Meta.{ConditionApi, IsDocumented}
use etok.Api.Run.{Run}
use etok.Kube.Pods.{Pod, Terminated, ContainerStatus, container_status_by_name}
use etok.RunPod.{runner_container_name}
use etok.Handlers.Verdict.{EventType, added, modified, deleted}
use etok.RunController.Manage.{step, is_ended, follow_pod}
use etok.RunController.PodPhases.{follow_pod-exited}
use etok.Monitors.{report, exit_monitor, run_exit_monitor, see_pod, see_run}

pod_reported :
    (name : String) (event : EventType) (pod : Pod) (c : ContainerStatus) (t : Terminated)
    (events : List (EventType × Pod))
    → event ≢ deleted
    → pod.name ≡ name
    → container_status_by_name pod runner_container_name ≡ some c
    → c.state.terminated ≡ some t
    → exit_monitor name runner_container_name ((event, pod) ∷ events) ≡ report t.exit_code
unfolding exit_monitor see_pod
pod_reported name added pod c t events n e h g = ground (arith, eq_iff pod.name name)
pod_reported name modified pod c t events n e h g = ground (arith, eq_iff pod.name name)
pod_reported name deleted pod c t events n e h g = absurd (n refl)

run_reported :
    (name : String) (event : EventType) (run : Run) (code : ℕ) (events : List (EventType × Run))
    → event ≢ deleted
    → run.name ≡ name
    → run.exit_code ≡ some code
    → run_exit_monitor name ((event, run) ∷ events) ≡ report code
unfolding run_exit_monitor see_run
run_reported name added run code events n e h = ground (arith, eq_iff run.name name)
run_reported name modified run code events n e h = ground (arith, eq_iff run.name name)
run_reported name deleted run code events n e h = absurd (n refl)

-- The monitor of a run reports what the monitor of its pod does, once the pod has ended with its
-- runner container terminated and the run controller has recorded the exit code in the run.
pub run_exit_monitor-exit_monitor :
    (m : ConditionApi) (doc : IsDocumented m) {S : Type 0} (now later : ℕ) (run r : Run) (pod : Pod)
    (s : S) (c : ContainerStatus) (t : Terminated) (event : EventType)
    (runs : List (EventType × Run)) (pods : List (EventType × Pod))
    → event ≢ deleted
    → is_ended pod.status.phase ≡ true
    → container_status_by_name pod runner_container_name ≡ some c
    → c.state.terminated ≡ some t
    → follow_pod m now later run pod s ≡ step r false none s
    → r.name ≡ pod.name
    → run_exit_monitor pod.name ((event, r) ∷ runs)
      ≡ exit_monitor pod.name runner_container_name ((event, pod) ∷ pods)
run_exit_monitor-exit_monitor m doc now later run r pod s c t event runs pods n e h g f same =
    let (r', stepped, code, over, phase) = follow_pod-exited m doc now later run pod s c t e h g in
    let code' : r.exit_code ≡ some t.exit_code = ground (arith, f, stepped, code) in
    run_reported pod.name event r t.exit_code runs n same code'
    ∙ sym (pod_reported pod.name event pod c t pods n refl h g)
