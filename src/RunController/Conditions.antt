-- ===== src/RunController/Conditions.antt =====
-- pkg/controllers/conditions.go, and the mapping of conditions to phases.
use etok.Base.{String, ◌||◌, Option, none, some, ◌==◌, if◌then◌else◌}
use etok.Api.Meta.{
  Condition, ConditionStatus, condition_true, condition_false, condition_unknown, ConditionApi,
  run_failed_condition, run_complete_condition, workspace_ready_condition, ready_reason,
  failure_reason, pending_reason, unknown_reason, deletion_reason, run_unqueued_reason,
  run_queued_reason, pod_created_reason, pod_pending_reason, pod_running_reason,
  pod_succeeded_reason, pod_failed_reason, pod_unknown_reason,
}
use etok.Api.Run.{Run, RunPhase}
use etok.Api.Workspace.{Workspace, WorkspacePhase}
use etok.Kube.Pods.{PodPhase, pod_pending, pod_running, pod_succeeded, pod_failed, pod_unknown}

abbrev condition : String → ConditionStatus → String → String → Condition
condition type status reason message = record {
  type = type;
  status = status;
  reason = reason;
  message = message;
  last_transition_time = 0;
}

abbrev pub workspace_ready : String → Condition
workspace_ready message = condition workspace_ready_condition condition_true ready_reason message

abbrev pub workspace_failure : String → Condition
workspace_failure message =
    condition workspace_ready_condition condition_false failure_reason message

abbrev pub workspace_pending : String → Condition
workspace_pending message =
    condition workspace_ready_condition condition_false pending_reason message

abbrev pub workspace_unknown : String → Condition
workspace_unknown message =
    condition workspace_ready_condition condition_unknown unknown_reason message

abbrev pub run_failed : String → String → Condition
run_failed reason message = condition run_failed_condition condition_true reason message

abbrev pub run_incomplete : String → String → Condition
run_incomplete reason message = condition run_complete_condition condition_false reason message

abbrev pub run_complete : String → String → Condition
run_complete reason message = condition run_complete_condition condition_true reason message

-- The switch on the reason of an incomplete run; other reasons fall through to unknown.
abbrev pub phase_of_reason : String → RunPhase
phase_of_reason reason =
    if reason == run_unqueued_reason
    then RunPhase.waiting
    else if reason == run_queued_reason
    then RunPhase.queued
    else if reason == pod_created_reason || reason == pod_pending_reason
    then RunPhase.provisioning
    else if reason == pod_running_reason
    then RunPhase.running
    else RunPhase.unknown

-- The condition is there where the code reads its reason: it has just been seen to be false.
abbrev phase_of_incomplete : Option Condition → RunPhase
phase_of_incomplete none = RunPhase.unknown
phase_of_incomplete (some complete) = phase_of_reason complete.reason

unfoldable pub set_run_phase : ConditionApi → Run → RunPhase
set_run_phase m run =
    if m.is_status_condition_true run.conditions run_failed_condition
    then RunPhase.failed
    else if m.is_status_condition_true run.conditions run_complete_condition
    then RunPhase.completed
    else if m.is_status_condition_false run.conditions run_complete_condition
    then phase_of_incomplete (m.find_status_condition run.conditions run_complete_condition)
    else RunPhase.unknown

abbrev pub phase_of_ready : String → WorkspacePhase
phase_of_ready reason =
    if reason == ready_reason
    then WorkspacePhase.ready
    else if reason == deletion_reason
    then WorkspacePhase.deleting
    else if reason == failure_reason
    then WorkspacePhase.error
    else if reason == pending_reason
    then WorkspacePhase.initializing
    else WorkspacePhase.unknown

abbrev phase_of : Option Condition → WorkspacePhase
phase_of none = WorkspacePhase.unknown
phase_of (some ready) = phase_of_ready ready.reason

-- `setPhase` of pkg/controllers/workspace_controller.go.
unfoldable pub set_phase : ConditionApi → Workspace → WorkspacePhase
set_phase m ws = phase_of (m.find_status_condition ws.status.conditions workspace_ready_condition)

unfoldable pub get_reason_from_pod_phase : PodPhase → String
get_reason_from_pod_phase pod_succeeded = pod_succeeded_reason
get_reason_from_pod_phase pod_failed = pod_failed_reason
get_reason_from_pod_phase pod_running = pod_running_reason
get_reason_from_pod_phase pod_pending = pod_pending_reason
get_reason_from_pod_phase pod_unknown = pod_unknown_reason
