-- ===== src/RunController/Manage.antt =====
-- The status updaters of a run: `manageQueue` and `managePod`.
use etok.Base.{
  ℕ, ◌+◌, String, Bool, true, false, not, ◌&&◌, Option, none, some, ◌==◌, if◌then◌else◌, ltb,
}
use etok.Slice.{string_index}
use etok.Commands.{is_queueable}
use etok.Labels.{Version}
use etok.Api.Meta.{
  Condition, condition_true, condition_false, ConditionApi, run_complete_condition,
  run_queued_reason, run_unqueued_reason, run_enqueue_timeout_reason, queue_timeout_reason,
  run_pending_timeout_reason, pod_created_reason, pod_pending_reason,
}
use etok.Api.Run.{Run}
use etok.Api.Workspace.{Workspace}
use etok.Kube
use etok.Kube.{Error, Get, Result, ok, err, Secret, Object, run_object, pod_object, Client}
use etok.Kube.Pods.{
  PodPhase, pod_succeeded, pod_failed, ContainerStatus, Pod, container_status_by_name,
}
use etok.RunPod.{run_pod, runner_container_name}
use etok.RunController.Conditions.{run_failed, run_incomplete, get_reason_from_pod_phase}

-- Seconds.
abbrev pub run_enqueue_timeout : ℕ
run_enqueue_timeout = 10

abbrev pub run_queue_timeout : ℕ
run_queue_timeout = 3600

abbrev pub run_pod_pending_timeout : ℕ
run_pod_pending_timeout = 60

-- An updater returns the run with its new status, whether to bail out, an error, and the state of
-- the cluster; `panic` is the dereference of a nil pointer.
pub data Step (S : Type 0) : Type 0 where
  step : Run → Bool → Option Error → S → Step S
  panic : Step S

abbrev pub set_condition : ConditionApi → ℕ → Run → Condition → Run
set_condition m now run c = record run {
  run_status = record (run.run_status) { conditions = m.set_status_condition now run.conditions c };
}

abbrev pub waiting : Option ℕ → Condition
waiting (some pos) = run_incomplete run_queued_reason "Run waiting in workspace queue"
waiting none =
    run_incomplete run_unqueued_reason
      "Run is waiting to be made active or to be added to workspace queue"

abbrev pub is_ended : PodPhase → Bool
is_ended pod_succeeded = true
is_ended pod_failed = true
is_ended _ = false

abbrev pub pod_condition : Bool → PodPhase → Condition
pod_condition ended phase = record {
  type = run_complete_condition;
  status = if ended then condition_true else condition_false;
  reason = get_reason_from_pod_phase phase;
  message = "";
  last_transition_time = 0;
}

-- `now` is the time at which conditions are set, `later` the time at which timeouts are checked.
module _ (m : ConditionApi) {S : Type 0} (now later : ℕ) where
  -- Both timeouts of a waiting run.
  abbrev pub check_timeouts : Run → Option Condition → S → Step S
  check_timeouts run none s = panic
  check_timeouts run (some complete) s =
      if complete.reason == run_unqueued_reason
        && ltb (complete.last_transition_time + run_enqueue_timeout) later
      then step
          (set_condition m now run
            (run_failed run_enqueue_timeout_reason "Timed out waiting to be enqueued"))
          true (some "enqueue timeout exceeded") s
      else if complete.reason == run_queued_reason
          && ltb (complete.last_transition_time + run_queue_timeout) later
      then step
          (set_condition m now run
            (run_failed queue_timeout_reason "Timed out waiting in the queue"))
          true (some "queue wait timeout exceeded") s
      else step run true none s

  abbrev pub await_turn : Run → S → Step S
  await_turn run s =
      check_timeouts run (m.find_status_condition run.conditions run_complete_condition) s

  unfoldable pub manage_queue : Run → Workspace → S → Step S
  manage_queue run ws s =
      if not (is_queueable run.command)
      then step run false none s
      else if ws.status.active == run.name
      then step run false none s
      else await_turn (set_condition m now run (waiting (string_index ws.status.queue run.name))) s

  abbrev pub check_pending : Run → Option Condition → S → Step S
  check_pending run none s = panic
  check_pending run (some complete) s =
      if complete.reason == pod_pending_reason
        && ltb (complete.last_transition_time + run_pod_pending_timeout) later
      then step
          (set_condition m now run
            (run_failed run_pending_timeout_reason "Timed out waiting for pod in pending phase"))
          false none s
      else step run false none s

  abbrev pub track : Run → S → Step S
  track run s = check_pending run (m.find_status_condition run.conditions run_complete_condition) s

  -- `getExitCode` and what is done with its result.
  abbrev pub record_exit : Run → Pod → Option ContainerStatus → S → Step S
  record_exit run pod none s = step run false (some "unable to retrieve container status") s
  record_exit run pod (some status) s = elim (status.state.terminated) [
    | none ↦ panic
    | some t ↦
        let ended = record run {
          run_status = record (run.run_status) { exit_code = some t.exit_code };
        } in
        track (set_condition m now ended (pod_condition true pod.status.phase)) s
  ]

  unfoldable pub follow_pod : Run → Pod → S → Step S
  unfolding get_reason_from_pod_phase
  follow_pod run pod s =
      if is_ended pod.status.phase
      then record_exit run pod (container_status_by_name pod runner_container_name) s
      else track (set_condition m now run (pod_condition false pod.status.phase)) s

-- Whether an optional object is there; an error other than not-found is passed on.
abbrev pub is_available : {A : Type 0} → Get A → Result Bool
is_available (Kube.Get.found a) = ok true
is_available Kube.Get.not_found = ok false
is_available (Kube.Get.failed e) = err e

module _ (k : Client) (version : Version) (image : String) (now later : ℕ) where
  unfoldable pub create_pod : Run → Workspace → Bool → Bool → k.State → Step k.State
  create_pod run ws secret_found service_account_found s =
      let pod = run_pod version run ws secret_found service_account_found image in
      elim (k.set_controller_reference (run_object run) pod.metadata) [
        | err e ↦ step run false (some e) s
        | ok meta ↦
            let (failure, s') = k.create (pod_object (record pod { metadata = meta })) s in
            elim failure [
              | some e ↦ step run false (some e) s'
              | none ↦
                  step (set_condition k.conditions now run (run_incomplete pod_created_reason ""))
                    false none s'
            ]
      ]

  unfoldable pub manage_found : Run → Workspace → Bool → Bool → Get Pod → k.State → Step k.State
  unfolding create_pod
  manage_found run ws secret_found service_account_found Kube.Get.not_found s =
      create_pod run ws secret_found service_account_found s
  manage_found run ws secret_found service_account_found (Kube.Get.failed e) s =
      step run false (some e) s
  manage_found run ws secret_found service_account_found (Kube.Get.found pod) s =
      follow_pod k.conditions now later run pod s

  unfoldable pub manage_pod : Run → Workspace → k.State → Step k.State
  unfolding manage_found
  manage_pod run ws s = elim (is_available (k.get_secret run.namespace "etok" s)) [
    | err e ↦ step run false (some e) s
    | ok secret_found ↦ elim (is_available (k.get_service_account run.namespace "etok" s)) [
      | err e ↦ step run false (some e) s
      | ok service_account_found ↦
          manage_found run ws secret_found service_account_found
            (k.get_pod run.namespace run.name s) s
    ]
  ]
