-- ===== src/CheckRun/Update/Laws.antt =====
-- The status and the conclusion that Github is told.
use etok.Base.{◌≡◌, ◌∙◌, inl, inr, true, Option, none, some, arith, eq_iff, Bool-cases}
use etok.Api.Meta.{
  Condition, ConditionApi, IsDocumented, is_true, has_status, run_failed_condition,
  run_complete_condition,
}
use etok.Api.Run.{Run, is_done}
use etok.Api.Run.Laws.{is_done-find}
use etok.CheckRun.Update.{CheckRunUpdate, status, status_of_complete}

module _ (m : ConditionApi) (doc : IsDocumented m) where
  status_of_complete-true :
      (o : Option Condition) → status_of_complete o ≡ "completed" → has_status o is_true ≡ true
  status_of_complete-true none e = ground (arith, eq_iff "queued" "completed")
  status_of_complete-true (some c) e =
      ground (arith, eq_iff "queued" "completed", eq_iff "in_progress" "completed")

  -- A check run is reported as completed only when its run is done.
  pub status-is_done :
      (u : CheckRunUpdate) (run : Run)
      → u.run ≡ some run
      → status m u ≡ "completed"
      → is_done run ≡ true
  unfolding status
  status-is_done u run e h =
      elim (Bool-cases (m.is_status_condition_true run.conditions run_failed_condition)) [
        | inl failed ↦ is_done-find m doc run (inr failed)
        | inr not_failed ↦
            let h' = rw (e, not_failed) at h in
            is_done-find m doc run (
              inl (
                doc.is_true-find run.conditions run_complete_condition
                ∙ status_of_complete-true
                    (m.find_status_condition run.conditions run_complete_condition) h'))
      ]
