-- ===== src/WorkspaceController/Approvals/Laws.antt =====
-- What `pruneApprovals` leaves of the annotations.
use text.Mathlib.Text.{starts_with}
use etok.Base.{
  String, Bool, true, false, ◌&&◌, ◌≡◌, refl, Option, none, some, [], ◌∷◌, arith, eq_iff, ◌==◌,
  if◌then◌else◌,
}
use etok.Base.Dict.{Dict, lookup, erase, lookup-erase}
use etok.Api.Run.{Run, approved_annotation_key_prefix, get_run_from_approval_annotation_key}
use etok.Api.Workspace.{Workspace}
use etok.Kube
use etok.Kube.{Error, Get, Client}
use etok.WorkspaceController.Approvals.{
  pruned, Verdict, remove, judge, judge_name, judge_run, prune_loop, prune_approvals,
  is_completed_phase,
}

abbrev is_over : Get Run → Bool
is_over Kube.Get.not_found = true
is_over (Kube.Get.failed e) = false
is_over (Kube.Get.found run) = is_completed_phase run.phase

abbrev is_over_named : (k : Client) → k.State → String → Option String → Bool
is_over_named k s namespace none = false
is_over_named k s namespace (some name) = is_over (k.get_run namespace name s)

-- Whether an annotation is an approval of a run that is completed or not there.
abbrev pub is_stale : (k : Client) → k.State → String → String → Bool
is_stale k s namespace key =
    starts_with key approved_annotation_key_prefix
    && is_over_named k s namespace (get_run_from_approval_annotation_key key)

abbrev is_remove : Verdict → Bool
is_remove remove = true
is_remove _ = false

is_remove-judge :
    (k : Client) (s : k.State) (namespace key : String)
    → is_remove (judge k namespace key s) ≡ is_stale k s namespace key
unfolding judge judge_name judge_run
is_remove-judge k s namespace key = ground arith

unfoldable pub has_key : String → Dict String → Bool
has_key key [] = false
has_key key ((j, v) ∷ entries) = let rest = has_key key entries in if j == key then true else rest

lookup-has_key : (key : String) (m : Dict String) → has_key key m ≡ false → lookup key m ≡ none
unfolding has_key lookup
lookup-has_key key [] e = refl
lookup-has_key key ((j, v) ∷ m) e = ground (arith, eq_iff j key, lookup-has_key key m)

module _ (k : Client) (s : k.State) where
  prune_loop-lookup :
      (namespace : String) (entries annotations left : Dict String) (key : String)
      → prune_loop k namespace entries annotations s ≡ pruned left
      → lookup key left ≡ (
          if has_key key entries && is_stale k s namespace key
          then none
          else lookup key annotations)
  unfolding prune_loop has_key
  prune_loop-lookup namespace [] annotations left key e = ground arith
  prune_loop-lookup namespace ((j, v) ∷ entries) annotations left key e =
      let kept = prune_loop-lookup namespace entries annotations left key in
      let removed = prune_loop-lookup namespace entries (erase j annotations) left key in
      ground (
        arith,
        eq_iff j key,
        kept,
        removed,
        lookup-erase j key annotations,
        is_remove-judge k s namespace j,
      )

  -- When the pruning succeeds, an annotation is gone exactly if it is an approval of a run that is
  -- completed or does not exist, and every other annotation is as it was.
  pub prune_approvals-lookup :
      (ws : Workspace) (left : Dict String) (key : String)
      → prune_approvals k ws s ≡ pruned left
      → lookup key left
        ≡ (if is_stale k s ws.namespace key then none else lookup key ws.annotations)
  unfolding prune_approvals
  prune_approvals-lookup ws left key e = ground (
    arith,
    prune_loop-lookup ws.namespace ws.annotations ws.annotations left key e,
    lookup-has_key key ws.annotations,
  )
