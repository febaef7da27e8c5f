-- ===== src/Queue.antt =====
-- pkg/controllers/workspace_queue.go: the combined queue of a workspace, its active run in front
-- of the runs that wait.
pub mod Order
pub mod Members
pub mod Laws
use etok.Base.{
  ℕ, zero, suc, String, Bool, true, false, not, Option, none, some, List, [], ◌∷◌, ◌++◌, ◌==◌,
  if◌then◌else◌, take, drop,
}
use etok.Slice.{contains_string, string_index}
use etok.Commands.{is_queueable}
use etok.Api.Run.{Run, is_done}
use etok.Api.Workspace.{Workspace, is_run_approved}

-- The guards of the first loop, in its order; a `continue` is false.
unfoldable pub is_enqueued : Workspace → Run → Bool
is_enqueued ws run =
    if not (run.workspace == ws.name)
    then false
    else if is_done run
    then false
    else if not (is_queueable run.command)
    then false
    else if contains_string ws.spec.privileged_commands run.command
    then is_run_approved ws run
    else true

-- The first loop.
unfoldable pub filter_runs : Workspace → List Run → List String
filter_runs ws [] = []
filter_runs ws (run ∷ runs) =
    let rest = filter_runs ws runs in if is_enqueued ws run then run.name ∷ rest else rest

-- One round of the second loop, for an entry of the current queue.
move_at : Option ℕ → String → List String → List String
move_at none name new_q = new_q
move_at (some zero) name new_q = new_q
move_at (some (suc j)) name new_q = name ∷ (take (suc j) new_q ++ drop (suc (suc j)) new_q)

unfoldable pub move_to_front : String → List String → List String
unfolding move_at
move_to_front name new_q = move_at (string_index new_q name) name new_q

-- The second loop runs over the current queue from its end.
unfoldable pub reorder : List String → List String → List String
reorder [] new_q = new_q
reorder (name ∷ curr_q) new_q = move_to_front name (reorder curr_q new_q)

abbrev pub assign : Workspace → List String → Workspace
assign ws [] = record ws { status = record (ws.status) { active = ""; queue = [] } }
assign ws (name ∷ rest) = record ws { status = record (ws.status) { active = name; queue = rest } }

unfoldable pub update_combined_queue : Workspace → List Run → Workspace
update_combined_queue ws runs =
    assign ws (reorder (ws.status.active ∷ ws.status.queue) (filter_runs ws runs))
