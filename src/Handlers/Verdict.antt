-- ===== src/Handlers/Verdict.antt =====
-- The outcome of a handler, and the handlers that look at one condition of a resource: object.go
-- and workspace_ready.go.
use etok.Base.{String, Bool, Option, none, some, ◌==◌, if◌then◌else◌}
use etok.Api.Meta.{
  Condition, ConditionStatus, condition_true, condition_false, condition_unknown, ConditionApi,
  workspace_ready_condition, failure_reason, deletion_reason,
}
use etok.Api.Workspace.{Workspace}

pub data HandlerError : Type 0 where
  resource_unexpectedly_deleted : HandlerError
  run_failed : String → HandlerError
  prematurely_succeeded : HandlerError
  workspace_failed : String → HandlerError
  workspace_deletion : HandlerError
  pod_unexpectedly_running : HandlerError
  pod_unexpectedly_succeeded : HandlerError
  container_message : String → HandlerError

-- (false, nil), (true, nil), (false, err), and the dereference of a nil pointer.
pub data Verdict : Type 0 where
  wait : Verdict
  done : Verdict
  fail : HandlerError → Verdict
  panic : Verdict

pub data EventType : Type 0 where
  added modified deleted : EventType

-- What a watch hands on: the resource that is watched for, or another object.
pub data Watched (A : Type 0) : Type 0 where
  resource : A → Watched A
  other : Watched A

abbrev pub unless_deleted : EventType → Verdict → Verdict
unless_deleted deleted v = fail resource_unexpectedly_deleted
unless_deleted _ v = v

-- A resource that can be reconciled: its name, and whether it has been.
pub record Reconcilable : Type 0 where
  pub name : String
  pub is_reconciled : Bool

abbrev check_reconciled : String → Watched Reconcilable → Verdict
check_reconciled name other = wait
check_reconciled name (resource obj) =
    if obj.name == name then (if obj.is_reconciled then done else wait) else wait

unfoldable pub reconciled : String → EventType → Watched Reconcilable → Verdict
reconciled name event obj = unless_deleted event (check_reconciled name obj)

-- `workspaceHandlerWrapper`
abbrev handle : (Workspace → Verdict) → Watched Workspace → Verdict
handle handler other = wait
handle handler (resource ws) = handler ws

abbrev pub workspace_handler_wrapper :
    (Workspace → Verdict) → EventType → Watched Workspace → Verdict
workspace_handler_wrapper handler event obj = unless_deleted event (handle handler obj)

abbrev check_false : String → String → Verdict
check_false reason message =
    if reason == failure_reason
    then fail (workspace_failed message)
    else if reason == deletion_reason
    then fail workspace_deletion
    else wait

abbrev check_status : ConditionStatus → String → String → Verdict
check_status condition_true reason message = done
check_status condition_false reason message = check_false reason message
check_status condition_unknown reason message = wait

abbrev check_ready : Option Condition → Verdict
check_ready none = wait
check_ready (some cond) = check_status cond.status cond.reason cond.message

unfoldable pub workspace_ready : ConditionApi → EventType → Watched Workspace → Verdict
workspace_ready m =
    workspace_handler_wrapper
      (λ ws. check_ready (m.find_status_condition ws.status.conditions workspace_ready_condition))
