-- ===== src/CheckRun/Controller/Laws.antt =====
-- What the reconciler of check runs sends and records.
use etok.Base.{ℕ, ◌+◌, ◌≤◌, ◌≡◌, refl, true, false, ◌==◌, length, Bool-cases, inl, inr}
use etok.Api.Meta.{ConditionApi, IsDocumented}
use etok.Api.Meta.Laws.{find-set_self}
use etok.CheckRun.{
  CheckRun, is_created, is_create_requested, set_create_requested, current_iteration, is_completed,
  create_requested, set_status, set_conclusion, set_iteration_status,
}
use etok.CheckRun.Laws.{is_completed-set_iteration_status}
use etok.CheckRun.Update.{CheckRunUpdate, status, conclusion}
use etok.CheckRun.Controller.{decide_send, reported}

module _ (m : ConditionApi) (doc : IsDocumented m) where
  is_create_requested-set_create_requested :
      (now : ℕ) (cr : CheckRun) → is_create_requested m (set_create_requested m now cr) ≡ true
  unfolding is_create_requested set_create_requested
  is_create_requested-set_create_requested now cr =
      rw (find-set_self m doc now cr.status.conditions create_requested) refl

  is_created-set_create_requested :
      (now : ℕ) (cr : CheckRun) → is_created (set_create_requested m now cr) ≡ is_created cr
  unfolding is_created set_create_requested
  is_created-set_create_requested now cr = refl

  -- The creation of a check run is sent to Github at most once: until the event that it was created
  -- arrives, a reconcile after the one that sent it does not send again.
  pub decide_send-once :
      (now later : ℕ) (cr : CheckRun)
      → is_created cr ≡ false
      → (decide_send m later (decide_send m now cr).1).0 ≡ false
  unfolding decide_send
  decide_send-once now later cr e = elim (Bool-cases (is_create_requested m cr)) [
    | inl requested ↦ rw (e, requested, decide_send, e, requested) refl
    | inr fresh ↦
        rw
          (
            e,
            fresh,
            decide_send,
            is_created-set_create_requested now cr,
            e,
            is_create_requested-set_create_requested now cr,
          )
          refl
  ]

-- While a check run has no more iterations than were asked for, what is recorded of the current
-- one agrees with the status that is recorded: it is completed exactly if that is `completed`.
pub is_completed-reported :
    (m : ConditionApi) (u : CheckRunUpdate) (cr : CheckRun)
    → length cr.status.iterations ≤ current_iteration cr + 1
    → is_completed (reported m u cr) ≡ ((reported m u cr).status.status == "completed")
unfolding reported set_status set_conclusion set_iteration_status current_iteration
is_completed-reported m u cr h =
    (is_completed-set_iteration_status (status m u == "completed")
      (set_conclusion (conclusion m u) (set_status (status m u) cr)) h).0
