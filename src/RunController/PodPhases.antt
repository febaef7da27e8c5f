-- ===== src/RunController/PodPhases.antt =====
-- Following the pod of a run: how its phase, its age and its exit code reach the run's status.
use etok.Base.{
  ℕ, ◌+◌, ◌≡◌, refl, ◌⊎◌, inl, inr, Bool, true, false, ◌&&◌, none, some, ◌==◌, Bool-cases,
  if◌then◌else◌, ltb,
}
use etok.Api.Meta.{
  Condition, condition_true, ConditionApi, IsDocumented, run_failed_condition,
  run_complete_condition, pod_pending_reason, run_pending_timeout_reason,
}
use etok.Api.Meta.Laws.{stored, stored-reason, find-set_self, is_true-set}
use etok.Api.Run.{Run, RunPhase, is_done}
use etok.Api.Run.Laws.{is_done-find}
use etok.Kube.Pods.{
  PodPhase, pod_pending, pod_running, pod_succeeded, pod_failed, pod_unknown, ContainerStatus,
  Terminated, Pod, container_status_by_name,
}
use etok.RunPod.{runner_container_name}
use etok.RunController.Conditions.{set_run_phase, run_failed, get_reason_from_pod_phase}
use etok.RunController.Manage.{
  Step, step, set_condition, is_ended, pod_condition, track, follow_pod, run_pod_pending_timeout,
}
use etok.RunController.Phases.{set_run_phase-complete}

-- The phase of a run whose pod has not ended; `over` says that a pending pod is overdue.
abbrev pub followed_phase : PodPhase → Bool → RunPhase
followed_phase pod_pending over = if over then RunPhase.failed else RunPhase.provisioning
followed_phase pod_running over = RunPhase.running
followed_phase pod_succeeded over = RunPhase.completed
followed_phase pod_failed over = RunPhase.completed
followed_phase pod_unknown over = RunPhase.unknown

abbrev pending_failed : Condition
pending_failed = run_failed run_pending_timeout_reason "Timed out waiting for pod in pending phase"

-- Since when the Complete condition has its status, once it is set to this one.
abbrev pub pod_since : ConditionApi → ℕ → Run → Bool → PodPhase → ℕ
pod_since m now run ended phase =
    let old = m.find_status_condition run.conditions run_complete_condition in
    (stored now old (pod_condition ended phase)).last_transition_time

abbrev pub is_overdue : ConditionApi → ℕ → ℕ → Run → PodPhase → Bool
is_overdue m now later run phase =
    ltb (pod_since m now run false phase + run_pod_pending_timeout) later

abbrev exited : Run → Terminated → Run
exited run t = record run { run_status = record (run.run_status) { exit_code = some t.exit_code } }

module _ (m : ConditionApi) (doc : IsDocumented m) {S : Type 0} (now later : ℕ) where
  track_lem :
      (run : Run) (ended : Bool) (phase : PodPhase) (s : S)
      → track m now later (set_condition m now run (pod_condition ended phase)) s ≡ (
          if get_reason_from_pod_phase phase == pod_pending_reason
            && ltb (pod_since m now run ended phase + run_pod_pending_timeout) later
          then step
              (set_condition m now
                (set_condition m now run (pod_condition ended phase))
                pending_failed)
              false
              none
              s
          else step (set_condition m now run (pod_condition ended phase)) false none s)
  track_lem run ended phase s =
      rw (find-set_self m doc now run.conditions (pod_condition ended phase), stored-reason)

  track_ended :
      (run : Run) (phase : PodPhase) (s : S)
      → is_ended phase ≡ true
      → track m now later (set_condition m now run (pod_condition true phase)) s
        ≡ step (set_condition m now run (pod_condition true phase)) false none s
  unfolding get_reason_from_pod_phase
  track_ended run pod_succeeded s h = track_lem run true pod_succeeded s
  track_ended run pod_failed s h = track_lem run true pod_failed s
  track_ended run pod_pending s h = cc
  track_ended run pod_running s h = cc
  track_ended run pod_unknown s h = cc

  -- What the run of a pod that has not ended becomes.
  abbrev pub Follows : Run → PodPhase → S → Step S → Type 0
  Follows run phase s out =
      (r : Run) × (out ≡ step r false none s)
      × (set_run_phase m r ≡ followed_phase phase (is_overdue m now later run phase))
      × (r.exit_code ≡ run.exit_code)

  -- When the pod has ended and its runner container is terminated, the run records the exit code
  -- and is done; it is completed, also where the pod failed, unless it was failed before.
  pub follow_pod-exited :
      (run : Run) (pod : Pod) (s : S) (c : ContainerStatus) (t : Terminated)
      → is_ended pod.status.phase ≡ true
      → container_status_by_name pod runner_container_name ≡ some c
      → c.state.terminated ≡ some t
      → (r : Run) × (follow_pod m now later run pod s ≡ step r false none s)
        × (r.exit_code ≡ some t.exit_code)
        × (is_done r ≡ true)
        × ((m.is_status_condition_true run.conditions run_failed_condition ≡ true)
            ⊎ (set_run_phase m r ≡ RunPhase.completed))
  unfolding follow_pod
  follow_pod-exited run pod s c t e h g =
      let ended = exited run t in
      (
        set_condition m now ended (pod_condition true pod.status.phase),
        rw (e, h, g) (track_ended ended pod.status.phase s e),
        refl,
        is_done-find m doc _
            (inl (is_true-set m doc now run.conditions (pod_condition true pod.status.phase) _)),
        elim (Bool-cases (m.is_status_condition_true run.conditions run_failed_condition)) [
          | inl failed ↦ inl failed
          | inr n ↦ inr (
              set_run_phase-complete m doc now ended condition_true
                (get_reason_from_pod_phase pod.status.phase) _ n)
        ],
      )
