-- ===== src/Handlers/Run.antt =====
-- run.go: whether the pod of a run can be connected to.
use etok.Base.{
  ◌≡◌, ◌≢◌, String, Bool, true, false, ◌||◌, List, [], ◌∷◌, arith, eq_iff, ◌==◌, if◌then◌else◌,
  ◌&&◌,
}
use etok.Api.Meta.{
  Condition, is_true, run_failed_condition, run_complete_condition, pod_running_reason,
  pod_succeeded_reason, pod_failed_reason,
}
use etok.Api.Run.{Run, is_streamable, streamable_loop, is_done, done_loop}
use etok.Handlers.Verdict.{
  Verdict, wait, done, fail, run_failed, prematurely_succeeded, EventType, deleted, unless_deleted,
}

abbrev connect : Bool → String → Verdict
connect is_tty reason =
    if reason == pod_running_reason
    then done
    else if reason == pod_succeeded_reason || reason == pod_failed_reason
    then (if is_tty then fail prematurely_succeeded else done)
    else wait

-- The loop over the conditions: the first that decides.
unfoldable pub connectable_loop : Bool → List Condition → Verdict
connectable_loop is_tty [] = wait
connectable_loop is_tty (condition ∷ conditions) =
    let rest = connectable_loop is_tty conditions in
    if condition.type == run_failed_condition && is_true condition.status
    then fail (run_failed condition.message)
    else if condition.type == run_complete_condition
    then connect is_tty condition.reason
    else rest

-- `lastReason` is for the log only.
unfoldable pub run_connectable : String → Bool → EventType → Run → Verdict
unfolding connectable_loop
run_connectable name is_tty event run =
    if run.name == name then unless_deleted event (connectable_loop is_tty run.conditions) else wait

connectable_loop-streamable :
    (is_tty : Bool) (conditions : List Condition)
    → connectable_loop is_tty conditions ≡ done
    → streamable_loop conditions ≡ true
unfolding connectable_loop streamable_loop
connectable_loop-streamable is_tty [] h = cc
connectable_loop-streamable true (c ∷ cs) h = ground (arith, connectable_loop-streamable true cs)
connectable_loop-streamable false (c ∷ cs) h = ground (arith, connectable_loop-streamable false cs)

connectable_loop-failed :
    (is_tty : Bool) (conditions : List Condition) (message : String)
    → connectable_loop is_tty conditions ≡ fail (run_failed message)
    → done_loop conditions ≡ true
unfolding connectable_loop done_loop
connectable_loop-failed is_tty [] message h = cc
connectable_loop-failed true (c ∷ cs) message h =
    ground (arith, connectable_loop-failed true cs message)
connectable_loop-failed false (c ∷ cs) message h =
    ground (arith, connectable_loop-failed false cs message)

-- When the wait for a connection ends well, the run is the one waited for, it was not deleted, and
-- its logs can be streamed.
pub run_connectable-is_streamable :
    (name : String) (is_tty : Bool) (event : EventType) (run : Run)
    → run_connectable name is_tty event run ≡ done
    → (is_streamable run ≡ true) × (run.name ≡ name) × (event ≢ deleted)
unfolding run_connectable is_streamable
run_connectable-is_streamable name is_tty deleted run h = ground arith
run_connectable-is_streamable name is_tty _ run h =
    ground (arith, eq_iff run.name name, connectable_loop-streamable is_tty run.conditions)

-- When the wait for a connection fails because the run has failed, the run is done.
pub run_connectable-is_done :
    (name : String) (is_tty : Bool) (event : EventType) (run : Run) (message : String)
    → run_connectable name is_tty event run ≡ fail (run_failed message)
    → is_done run ≡ true
unfolding run_connectable is_done
run_connectable-is_done name is_tty deleted run message h = ground arith
run_connectable-is_done name is_tty _ run message h =
    ground (arith, connectable_loop-failed is_tty run.conditions message)
