-- ===== src/Monitors.antt =====
-- pkg/monitors/exit_monitor.go, on the events of a watch in their order; pkg/errors/exit_error.go.
pub mod Laws
use etok.Base.{
  ℕ, String, Bool, true, false, Option, none, some, List, [], ◌∷◌, ◌==◌, if◌then◌else◌, nat_eq,
}
use etok.Api.Run.{Run}
use etok.Kube.Pods.{Terminated, ContainerStatus, Pod, container_status_by_name}
use etok.Handlers.Verdict.{EventType, added, modified, deleted}

-- What a condition answers at an event: it goes on, it has found an exit code, or it fails as the
-- object was deleted.
pub data Seen : Type 0 where
  nothing unexpectedly_deleted : Seen
  exit_code : ℕ → Seen

-- What is reported on the channel; `pending` while nothing is.
pub data Exit : Type 0 where
  pending no_error failed_to_retrieve : Exit
  exit_error : ℕ → Exit

abbrev of_terminated : Option Terminated → Seen
of_terminated none = nothing
of_terminated (some t) = exit_code t.exit_code

abbrev of_status : Option ContainerStatus → Seen
of_status none = nothing
of_status (some status) = of_terminated status.state.terminated

abbrev unless_gone : EventType → Seen → Seen
unless_gone deleted seen = unexpectedly_deleted
unless_gone _ seen = seen

unfoldable pub see_pod : String → String → EventType → Pod → Seen
see_pod name container event pod =
    if pod.name == name
    then unless_gone event (of_status (container_status_by_name pod container))
    else nothing

abbrev of_code : Option ℕ → Seen
of_code none = nothing
of_code (some code) = exit_code code

unfoldable pub see_run : String → EventType → Run → Seen
see_run name event run =
    if run.name == name then unless_gone event (of_code run.exit_code) else nothing

abbrev pub report : ℕ → Exit
report code = if nat_eq code 0 then no_error else exit_error code

-- Events are seen until the condition answers.
abbrev next : Exit → Seen → Exit
next rest nothing = rest
next rest unexpectedly_deleted = failed_to_retrieve
next rest (exit_code code) = report code

unfoldable pub exit_monitor : String → String → List (EventType × Pod) → Exit
unfolding see_pod
exit_monitor name container [] = pending
exit_monitor name container ((event, pod) ∷ events) =
    next (exit_monitor name container events) (see_pod name container event pod)

unfoldable pub run_exit_monitor : String → List (EventType × Run) → Exit
unfolding see_run
run_exit_monitor name [] = pending
run_exit_monitor name ((event, run) ∷ events) =
    next (run_exit_monitor name events) (see_run name event run)
