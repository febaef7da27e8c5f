-- ===== src/Handlers/Queue.antt =====
-- workspace_queue.go: the position of a run in the queue of its workspace.
use etok.Base.{◌≡◌, refl, String, arith, ◌==◌, if◌then◌else◌, contains}
use etok.Slice.{contains_string}
use etok.Slice.Laws.{contains_string-contains}
use etok.Api.Workspace.{Workspace}
use etok.Queue.Laws.{combined}
use etok.Handlers.Verdict.{
  Verdict, wait, done, EventType, deleted, Watched, resource, workspace_handler_wrapper,
  unless_deleted,
}

-- The position is printed only.
unfoldable pub log_queue_position : String → EventType → Watched Workspace → Verdict
log_queue_position run_name =
    workspace_handler_wrapper (λ ws. if ws.status.active == run_name then done else wait)

unfoldable pub is_queued : String → EventType → Watched Workspace → Verdict
is_queued run_name = workspace_handler_wrapper (λ ws.
    if ws.status.active == run_name
    then done
    else if contains_string ws.status.queue run_name
    then done
    else wait)

-- The wait for a run to be queued ends exactly when it stands in the combined queue of the
-- workspace, as its active run or behind it; it fails at the deletion of the workspace.
pub is_queued-combined :
    (run_name : String) (event : EventType) (ws : Workspace)
    → is_queued run_name event (resource ws)
      ≡ unless_deleted event (if contains (combined ws) run_name then done else wait)
unfolding is_queued
is_queued-combined run_name deleted ws = refl
is_queued-combined run_name _ ws = ground (arith, contains_string-contains ws.status.queue run_name)
