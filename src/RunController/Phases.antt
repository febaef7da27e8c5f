-- ===== src/RunController/Phases.antt =====
-- The phase of a run whose Complete or Failed condition has just been set.
use etok.Base.{ℕ, ◌≡◌, refl, ap, inr, String, true, false, if◌then◌else◌}
use etok.Api.Meta.{
  Condition, ConditionStatus, condition_true, condition_false, condition_unknown, ConditionApi,
  IsDocumented, is_true, is_false, run_failed_condition, run_complete_condition,
}
use etok.Api.Meta.Laws.{stored, stored-reason, find-set_self, is_true-set, is_false-set}
use etok.Api.Run.{Run, RunPhase, is_done}
use etok.Api.Run.Laws.{is_done-find}
use etok.RunController.Conditions.{set_run_phase, phase_of_reason, run_failed}
use etok.RunController.Manage.{set_condition}

abbrev pub complete : ConditionStatus → String → String → Condition
complete status reason message = record {
  type = run_complete_condition;
  status = status;
  reason = reason;
  message = message;
  last_transition_time = 0;
}

abbrev pub phase_of_complete : ConditionStatus → String → RunPhase
phase_of_complete condition_true reason = RunPhase.completed
phase_of_complete condition_false reason = phase_of_reason reason
phase_of_complete condition_unknown reason = RunPhase.unknown

module _ (m : ConditionApi) (doc : IsDocumented m) (now : ℕ) (run : Run) where
  -- A run that is failed has that phase, and is done.
  pub set_run_phase-failed :
      (reason message : String)
      → let r = set_condition m now run (run_failed reason message) in
        (set_run_phase m r ≡ RunPhase.failed) × (is_done r ≡ true)
  unfolding set_run_phase
  set_run_phase-failed reason message =
      let set =
        is_true-set m doc now run.conditions (run_failed reason message) run_failed_condition in
      (rw set, is_done-find m doc (set_condition m now run (run_failed reason message)) (inr set))

  -- While a run has not failed, its phase is that of the Complete condition just set.
  pub set_run_phase-complete :
      (status : ConditionStatus) (reason message : String)
      → m.is_status_condition_true run.conditions run_failed_condition ≡ false
      → set_run_phase m (set_condition m now run (complete status reason message))
        ≡ phase_of_complete status reason
  unfolding set_run_phase
  set_run_phase-complete status reason message h =
      rw
        (
          is_true-set m doc now run.conditions (complete status reason message)
              run_failed_condition,
          h,
          is_true-set m doc now run.conditions (complete status reason message)
              run_complete_condition,
          is_false-set m doc now run.conditions (complete status reason message)
              run_complete_condition,
          find-set_self m doc now run.conditions (complete status reason message),
        )
        (go status)
    where
      go :
          (st : ConditionStatus)
          → (if is_true st
              then RunPhase.completed
              else if is_false st
              then phase_of_reason
                  (stored now
                    (m.find_status_condition run.conditions run_complete_condition)
                    (complete st reason message)).reason
              else RunPhase.unknown)
            ≡ phase_of_complete st reason
      go condition_true = refl
      go condition_unknown = refl
      go condition_false = ap phase_of_reason (
          stored-reason now (m.find_status_condition run.conditions run_complete_condition)
            (complete condition_false reason message))
