-- ===== src/Handlers/Pod.antt =====
-- pod.go: whether a container of a pod can be attached to or streamed from.
use etok.Base.{String, Bool, Option, none, some, ◌==◌, if◌then◌else◌}
use etok.Kube.Pods.{
  PodPhase, pod_pending, pod_running, pod_succeeded, pod_failed, pod_unknown, ContainerStatus,
  Terminated, Pod, container_status_by_name,
}
use etok.Handlers.Verdict.{
  Verdict, wait, done, fail, panic, prematurely_succeeded, pod_unexpectedly_running,
  pod_unexpectedly_succeeded, container_message, resource_unexpectedly_deleted, EventType, deleted,
}

abbrev terminated_message : Option Terminated → Verdict
terminated_message none = panic
terminated_message (some t) = fail (container_message t.message)

-- `ContainerStatusByName(…).State.Terminated.Message`
abbrev failure : Option ContainerStatus → Verdict
failure none = panic
failure (some status) = terminated_message status.state.terminated

abbrev if_running : Option ContainerStatus → Verdict
if_running none = wait
if_running (some status) = if status.state.running then done else wait

abbrev if_ended : Option Terminated → Verdict
if_ended none = wait
if_ended (some t) = done

abbrev if_running_or_ended : Option ContainerStatus → Verdict
if_running_or_ended none = wait
if_running_or_ended (some status) =
    if status.state.running then done else if_ended status.state.terminated

-- `PodHandlerWrapper`; the phase that it remembers is for the log only.
abbrev pub pod_handler_wrapper : String → (Pod → Verdict) → EventType → Pod → Verdict
pod_handler_wrapper name h deleted pod =
    if pod.name == name then fail resource_unexpectedly_deleted else wait
pod_handler_wrapper name h _ pod = if pod.name == name then h pod else wait

abbrev init_attachable : Option ContainerStatus → PodPhase → Verdict
init_attachable status pod_running = fail pod_unexpectedly_running
init_attachable status pod_succeeded = fail pod_unexpectedly_succeeded
init_attachable status pod_failed = failure status
init_attachable status pod_pending = if_running status
init_attachable status pod_unknown = wait

unfoldable pub init_container_attachable : String → String → EventType → Pod → Verdict
init_container_attachable name container =
    pod_handler_wrapper name
      (λ pod. init_attachable (container_status_by_name pod container) pod.status.phase)

abbrev attachable : Option ContainerStatus → PodPhase → Verdict
attachable status pod_running = done
attachable status pod_succeeded = fail prematurely_succeeded
attachable status pod_failed = failure status
attachable status _ = wait

unfoldable pub container_attachable : String → String → EventType → Pod → Verdict
container_attachable name container =
    pod_handler_wrapper name
      (λ pod. attachable (container_status_by_name pod container) pod.status.phase)

abbrev init_streamable : Option ContainerStatus → PodPhase → Verdict
init_streamable status pod_pending = if_running_or_ended status
init_streamable status pod_unknown = wait
init_streamable status _ = done

unfoldable pub init_container_streamable : String → String → EventType → Pod → Verdict
init_container_streamable name container =
    pod_handler_wrapper name
      (λ pod. init_streamable (container_status_by_name pod container) pod.status.phase)

abbrev streamable : PodPhase → Verdict
streamable pod_succeeded = done
streamable pod_failed = done
streamable pod_running = done
streamable _ = wait

unfoldable pub container_streamable : String → String → EventType → Pod → Verdict
container_streamable name container = pod_handler_wrapper name (λ pod. streamable pod.status.phase)

unfoldable pub container_ready : String → String → Bool → Bool → EventType → Pod → Verdict
unfolding init_container_attachable container_attachable init_container_streamable
    container_streamable
container_ready pod container init is_tty =
    if is_tty
    then (if init
        then init_container_attachable pod container
        else container_attachable pod container)
    else if init
    then init_container_streamable pod container
    else container_streamable pod container
