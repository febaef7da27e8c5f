-- ===== src/System/Fair.antt =====
-- What holds of a run of the namespace at every moment, and that each change of the workspace and
-- of the run keeps it.
use etok.Base.{
  ℕ, ◌≡◌, ◌≢◌, refl, ap, ◌∙◌, String, true, false, some, List, [], ◌∷◌, arith, eq_iff, ==_refl,
  contains, Distinct, get_elem?,
}
use etok.Base.Dict.{Dict, lookup, lookup-insert}
use etok.Commands.{is_queueable}
use etok.Api.Run.{Run, is_done, approved_annotation_key}
use etok.Api.Workspace.{Workspace, is_run_approved}
use etok.Kube.{Client}
use etok.Launcher.{approved}
use etok.Queue.{is_enqueued, assign, update_combined_queue, filter_runs}
use etok.Queue.Laws.{
  combined, names, is_enqueued_iff, filter_runs_complete, update_combined_queue-eligible,
  update_combined_queue-keeps_active,
}
use etok.RunController.Keeps.{SameRun}
use etok.RunController.Pods.{HasPod}
use etok.System.{System, written, Listed}
use etok.System.Listed.{names-injective}

-- A run is fair if, unless it is done, it stands enqueued while it is the active run, and is the
-- active run while it has a pod.
abbrev pub IsFair : (k : Client) → Workspace → k.State → Run → Type 0
IsFair k ws s run =
    (run.name ≢ "")
    × (ws.status.active ≡ run.name → is_done run ≡ false → is_enqueued ws run ≡ true)
    × (run.workspace ≡ ws.name
        → is_queueable run.command ≡ true
        → is_done run ≡ false
        → HasPod k s run
        → ws.status.active ≡ run.name)

abbrev pub IsOrderly : (k : Client) → System k.State → Type 0
IsOrderly k w =
    Distinct (combined w.workspace)
    × Distinct (names w.runs)
    × ((i : ℕ) (run : Run) → get_elem? w.runs i ≡ some run → IsFair k w.workspace w.cluster run)

assign-metadata : (ws : Workspace) (q : List String) → (assign ws q).metadata ≡ ws.metadata
assign-metadata ws [] = refl
assign-metadata ws (name ∷ q) = refl

is_enqueued-assign :
    (ws : Workspace) (q : List String) (run : Run)
    → is_enqueued (assign ws q) run ≡ is_enqueued ws run
unfolding is_enqueued is_run_approved
is_enqueued-assign ws [] run = refl
is_enqueued-assign ws (name ∷ q) run = refl

update_combined_queue-metadata :
    (ws : Workspace) (listed : List Run) → (update_combined_queue ws listed).metadata ≡ ws.metadata
unfolding update_combined_queue
update_combined_queue-metadata ws listed = assign-metadata ws _

is_enqueued-update_combined_queue :
    (ws : Workspace) (listed : List Run) (run : Run)
    → is_enqueued (update_combined_queue ws listed) run ≡ is_enqueued ws run
unfolding update_combined_queue
is_enqueued-update_combined_queue ws listed run = is_enqueued-assign ws _ run

-- Approving one run takes no approval from another.
pub is_run_approved-approved_other :
    (ws : Workspace) (run other : Run)
    → is_run_approved ws other ≡ true
    → is_run_approved (approved ws run) other ≡ true
unfolding is_run_approved approved
is_run_approved-approved_other ws run other h =
    let key = approved_annotation_key other.name in
    ground (
      arith,
      lookup-insert (approved_annotation_key run.name) key "approved" ws.annotations,
      ==_refl "approved",
    )

pub is_run_approved-annotated :
    (ws : Workspace) (left : Dict String) (run : Run)
    → lookup (approved_annotation_key run.name) left
      ≡ lookup (approved_annotation_key run.name) ws.annotations
    → is_run_approved ws run ≡ true
    → is_run_approved (record ws { metadata = record (ws.metadata) { annotations = left } }) run
      ≡ true
unfolding is_run_approved
is_run_approved-annotated ws left run same h = rw same h

module _ (k : Client) where
  pub update_combined_queue-IsFair :
      (ws : Workspace) (listed : List Run) (s : k.State) (run : Run)
      → Distinct (combined ws)
      → Distinct (names listed)
      → Listed listed run
      → IsFair k ws s run
      → IsFair k (update_combined_queue ws listed) s run
  update_combined_queue-IsFair ws listed s run d e (i, at) (named, enqueued, turn) = (
    named,
    stands,
    λ own q going pod.
        keeps (turn (own ∙ ap (λ m. m.name) (update_combined_queue-metadata ws listed)) q going pod)
          going,
  )
    where
      stands :
          (update_combined_queue ws listed).status.active ≡ run.name
          → is_done run ≡ false
          → is_enqueued (update_combined_queue ws listed) run ≡ true
      stands active going =
          let (j, r, at', same, fit) =
            (update_combined_queue-eligible ws listed run.name e named).0
              (ground (arith, eq_iff (update_combined_queue ws listed).status.active run.name)) in
          let run' = names-injective listed j i r run e at' at same in
          is_enqueued-update_combined_queue ws listed run
          ∙ rw (← run'.1) ((is_enqueued_iff ws r).1 fit)

      keeps :
          ws.status.active ≡ run.name
          → is_done run ≡ false
          → (update_combined_queue ws listed).status.active ≡ run.name
      keeps active going =
          update_combined_queue-keeps_active ws listed d e (
            ap (contains (filter_runs ws listed)) active
            ∙ filter_runs_complete ws listed i run at (enqueued active going))
          ∙ active

  -- A run whose status was written.
  pub written-IsFair :
      (ws : Workspace) (s s' : k.State) (run r : Run)
      → SameRun r run
      → is_done run ≡ false
      → (is_queueable run.command ≡ true
          → HasPod k s' run
          → run.workspace ≡ ws.name
          → ws.status.active ≡ run.name)
      → IsFair k ws s run
      → IsFair k ws s' (written k run r)
  unfolding written is_enqueued is_run_approved
  written-IsFair ws s s' run r same going turn (named, enqueued, _) = (
    named,
    λ active going'. ground (arith, enqueued active going),
    λ own q going' pod. turn q pod own,
  )

  -- Annotations that still hold the approvals of the runs that are not done.
  pub annotated-IsFair :
      (ws : Workspace) (left : Dict String) (s : k.State) (run : Run)
      → let ws' : Workspace = record ws {
        metadata = record (ws.metadata) { annotations = left };
      } in
        (is_done run ≡ false → is_run_approved ws run ≡ true → is_run_approved ws' run ≡ true)
        → IsFair k ws s run
        → IsFair k ws' s run
  unfolding is_enqueued
  annotated-IsFair ws left s run kept (named, enqueued, turn) =
      (named, λ active going. ground (arith, enqueued active going, kept going), turn)
