-- ===== src/WorkspaceController/Approvals.antt =====
-- `pruneApprovals` of the workspace controller.
pub mod Laws
use text.Mathlib.Text.{starts_with}
use etok.Base.{
  ℕ, String, Bool, true, false, not, ◌&&◌, Option, none, some, List, [], ◌∷◌, ◌==◌, if◌then◌else◌,
  nat_eq, length,
}
use etok.Base.Dict.{Dict, lookup, erase}
use etok.Api.Run.{
  Run, RunPhase, approved_annotation_key_prefix, get_run_from_approval_annotation_key,
}
use etok.Api.Workspace.{Workspace}
use etok.Kube
use etok.Kube.{Error, Get, Client}

-- `crashed` is the panic of an index out of range in `GetRunFromApprovalAnnotationKey`.
pub data Pruned : Type 0 where
  pruned : Dict String → Pruned
  failed : Error → Pruned
  crashed : Pruned

abbrev pub is_completed_phase : RunPhase → Bool
is_completed_phase RunPhase.completed = true
is_completed_phase _ = false

-- What a round of the loop does with its key.
pub data Verdict : Type 0 where
  keep remove crash : Verdict
  fail : Error → Verdict

module _ (k : Client) where
  unfoldable pub judge_run : Get Run → Verdict
  judge_run Kube.Get.not_found = remove
  judge_run (Kube.Get.failed e) = fail e
  judge_run (Kube.Get.found run) = if is_completed_phase run.phase then remove else keep

  judge_name : String → Option String → k.State → Verdict
  judge_name namespace none s = crash
  judge_name namespace (some name) s = judge_run (k.get_run namespace name s)

  unfoldable pub judge : String → String → k.State → Verdict
  unfolding judge_name
  judge namespace key s =
      if not (starts_with key approved_annotation_key_prefix)
      then keep
      else judge_name namespace (get_run_from_approval_annotation_key key) s

  -- The loop over the keys of the copy, from which it deletes.
  unfoldable pub prune_loop : String → Dict String → Dict String → k.State → Pruned
  prune_loop namespace [] annotations s = pruned annotations
  prune_loop namespace ((key, value) ∷ entries) annotations s =
      let kept = prune_loop namespace entries annotations s in
      let removed = prune_loop namespace entries (erase key annotations) s in
      elim (judge namespace key s) [
        | keep ↦ kept
        | remove ↦ removed
        | crash ↦ crashed
        | fail e ↦ failed e
      ]

  unfoldable pub prune_approvals : Workspace → k.State → Pruned
  unfolding prune_loop
  prune_approvals ws s = prune_loop ws.namespace ws.annotations ws.annotations s

abbrev agrees : Option String → String → Bool
agrees none value = false
agrees (some value') value = value' == value

contains_all : Dict String → Dict String → Bool
contains_all [] b = true
contains_all ((key, value) ∷ a) b = agrees (lookup key b) value && contains_all a b

-- reflect.DeepEqual on maps.
unfoldable pub equal_maps : Dict String → Dict String → Bool
unfolding contains_all
equal_maps a b = nat_eq (length a) (length b) && contains_all a b
