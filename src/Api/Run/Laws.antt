-- ===== src/Api/Run/Laws.antt =====
-- Whether a run is done, in terms of its conditions; approval keys.
use Prim.Native.Char.{Char}
use etok.Base.{◌≡◌, refl, inl, inr, ◌⊎◌, String, true, false, some, List, [], ◌∷◌, arith}
use etok.Base.Text.{has_char, split_plain, split-sep}
use etok.Api.Meta.{
  Condition, ConditionApi, IsDocumented, has_status, is_true, run_failed_condition,
  run_complete_condition,
}
use etok.Api.Run.{
  Run, done_loop, is_done, approved_annotation_key, get_run_from_approval_annotation_key,
}

-- The run named in an approval annotation is found again, if its name has no slash (Kubernetes
-- admits none).
pub get_run_from_approval_annotation_key-approved_annotation_key :
    (name : String)
    → has_char b'/' name ≡ false
    → get_run_from_approval_annotation_key (approved_annotation_key name) ≡ some name
unfolding get_run_from_approval_annotation_key approved_annotation_key
get_run_from_approval_annotation_key-approved_annotation_key name h =
    let slash : Char = "/" in
    rw
      (split-sep slash "approvals.etok.dev" name (unfold has_char in refl), split_plain b'/' name h)

module _ (m : ConditionApi) (doc : IsDocumented m) where
  done_loop-find :
      (cs : List Condition)
      → (has_status (m.find_status_condition cs run_complete_condition) is_true ≡ true)
        ⊎ (has_status (m.find_status_condition cs run_failed_condition) is_true ≡ true)
      → done_loop cs ≡ true
  unfolding done_loop
  done_loop-find [] (inl h) = rw (doc.find-nil) at h
  done_loop-find [] (inr h) = rw (doc.find-nil) at h
  done_loop-find (c ∷ cs) (inl h) =
      let h' = rw (doc.find-cons c cs run_complete_condition) at h in
      ground (arith, h', done_loop-find cs)
  done_loop-find (c ∷ cs) (inr h) =
      let h' = rw (doc.find-cons c cs run_failed_condition) at h in
      ground (arith, h', done_loop-find cs)

  -- A run whose Complete or Failed condition is found to be true is done.
  pub is_done-find :
      (run : Run)
      → (m.is_status_condition_true run.conditions run_complete_condition ≡ true)
        ⊎ (m.is_status_condition_true run.conditions run_failed_condition ≡ true)
      → is_done run ≡ true
  unfolding is_done
  is_done-find run (inl h) =
      done_loop-find run.conditions (inl (rw (doc.is_true-find run.conditions _) at h))
  is_done-find run (inr h) =
      done_loop-find run.conditions (inr (rw (doc.is_true-find run.conditions _) at h))
