-- ===== src/RunController/Turns.antt =====
-- Waiting for a turn: what `manageQueue` does on every branch, and that no pod is made before.
use etok.Base.{
  ℕ, ◌+◌, ◌≡◌, ◌≢◌, ◌⊎◌, inl, inr, String, Bool, true, false, Option, none, some, arith, eq_iff,
  ==_of_ne, Bool-cases, if◌then◌else◌, ltb,
}
use etok.Slice.{string_index}
use etok.Commands.{is_queueable}
use etok.Labels.{Version}
use etok.Api.Meta.{
  Condition, condition_false, ConditionApi, IsDocumented, run_failed_condition,
  run_complete_condition, run_unqueued_reason, run_queued_reason, run_enqueue_timeout_reason,
  queue_timeout_reason,
}
use etok.Api.Meta.Laws.{stored, stored-reason, find-set_self}
use etok.Api.Run.{Run, RunPhase, is_done}
use etok.Api.Workspace.{Workspace}
use etok.Kube.{Error, Client}
use etok.RunController.Conditions.{set_run_phase, run_failed}
use etok.RunController.Manage.{
  Step, step, set_condition, waiting, await_turn, manage_queue, run_enqueue_timeout,
  run_queue_timeout,
}
use etok.RunController.Phases.{set_run_phase-failed, set_run_phase-complete}
use etok.RunController.Reconcile.{process_chain}

-- `manageQueue` lets a run go on to its pod only if the command is not queueable or the run is
-- the active one, and then leaves everything as it was.
pub manage_queue-proceeds :
    (m : ConditionApi) {S : Type 0} (now later : ℕ) (run : Run) (ws : Workspace) (s : S) {r : Run}
    {e : Option Error} {t : S}
    → manage_queue m now later run ws s ≡ step r false e t
    → (r ≡ run)
      × (e ≡ none)
      × (t ≡ s)
      × ((is_queueable run.command ≡ false) ⊎ (ws.status.active ≡ run.name))
unfolding manage_queue
manage_queue-proceeds m now later run ws s h = ground (arith, eq_iff ws.status.active run.name)

-- How long a run may wait: to be enqueued, or in the queue.
abbrev pub limit : Option ℕ → ℕ
limit none = run_enqueue_timeout
limit (some position) = run_queue_timeout

abbrev pub timed_out : Option ℕ → Condition
timed_out none = run_failed run_enqueue_timeout_reason "Timed out waiting to be enqueued"
timed_out (some position) = run_failed queue_timeout_reason "Timed out waiting in the queue"

abbrev pub timeout_error : Option ℕ → Error
timeout_error none = "enqueue timeout exceeded"
timeout_error (some position) = "queue wait timeout exceeded"

abbrev pub waiting_phase : Option ℕ → RunPhase
waiting_phase none = RunPhase.waiting
waiting_phase (some position) = RunPhase.queued

abbrev pub position : Workspace → Run → Option ℕ
position ws run = string_index ws.status.queue run.name

-- Since when the run waits: the time of its Complete condition once it is set.
abbrev pub since : ConditionApi → ℕ → Run → Option ℕ → ℕ
since m now run o =
    let old = m.find_status_condition run.conditions run_complete_condition in
    (stored now old (waiting o)).last_transition_time

-- Whether a run that waits at `o` has waited for too long.
abbrev pub is_late : ConditionApi → ℕ → ℕ → Run → Option ℕ → Bool
is_late m now later run o = ltb (since m now run o + limit o) later

waiting-phase :
    (m : ConditionApi) (doc : IsDocumented m) (now : ℕ) (run : Run) (o : Option ℕ)
    → m.is_status_condition_true run.conditions run_failed_condition ≡ false
    → set_run_phase m (set_condition m now run (waiting o)) ≡ waiting_phase o
waiting-phase m doc now run none h =
    set_run_phase-complete m doc now run condition_false run_unqueued_reason _ h
waiting-phase m doc now run (some p) h =
    set_run_phase-complete m doc now run condition_false run_queued_reason _ h

timed_out-phase :
    (m : ConditionApi) (doc : IsDocumented m) (now : ℕ) (run : Run) (o : Option ℕ)
    → let r = set_condition m now run (timed_out o) in
      (set_run_phase m r ≡ RunPhase.failed) × (is_done r ≡ true)
timed_out-phase m doc now run none = set_run_phase-failed m doc now run run_enqueue_timeout_reason _
timed_out-phase m doc now run (some p) = set_run_phase-failed m doc now run queue_timeout_reason _

module _ (m : ConditionApi) (doc : IsDocumented m) {S : Type 0} (now later : ℕ) where
  await_turn_lem :
      (run : Run) (o : Option ℕ) (s : S)
      → await_turn m now later (set_condition m now run (waiting o)) s ≡ (
          if ltb (since m now run o + limit o) later
          then step
              (set_condition m now (set_condition m now run (waiting o)) (timed_out o))
              true
              (some (timeout_error o))
              s
          else step (set_condition m now run (waiting o)) true none s)
  await_turn_lem run none s =
      rw (find-set_self m doc now run.conditions (waiting none), stored-reason)
  await_turn_lem run (some p) s =
      rw (find-set_self m doc now run.conditions (waiting (some p)), stored-reason)

  -- How the updater ends at a run that waits at `o`.
  abbrev pub Awaits : Run → Option ℕ → S → Step S → Type 0
  Awaits run o s out =
      (r : Run) × (out
        ≡ step r true (if is_late m now later run o then some (timeout_error o) else none) s)
      × (set_run_phase m r
          ≡ (if is_late m now later run o then RunPhase.failed else waiting_phase o))
      × ((is_late m now later run o ≡ false) ⊎ (is_done r ≡ true))

  await_turn-Awaits :
      (run : Run) (o : Option ℕ) (s : S)
      → m.is_status_condition_true run.conditions run_failed_condition ≡ false
      → Awaits run o s (await_turn m now later (set_condition m now run (waiting o)) s)
  await_turn-Awaits run o s h =
      rw (await_turn_lem run o s) (elim (Bool-cases (is_late m now later run o)) [
        | inl over ↦
            let (phase, over') =
              timed_out-phase m doc now (set_condition m now run (waiting o)) o in
            (
              set_condition m now (set_condition m now run (waiting o)) (timed_out o),
              rw over,
              rw over phase,
              inr over',
            )
        | inr within ↦ (
          set_condition m now run (waiting o),
          rw within,
          rw within (waiting-phase m doc now run o h),
          inl within,
        )
      ])

  -- A queueable run that is not active waits, and bails out. While it is not overdue it is marked
  -- as waiting in the queue, or as waiting to be enqueued, and there is no error. Once overdue it
  -- is failed, is done, and the updater returns an error.
  pub manage_queue-waits :
      (run : Run) (ws : Workspace) (s : S)
      → is_queueable run.command ≡ true
      → ws.status.active ≢ run.name
      → m.is_status_condition_true run.conditions run_failed_condition ≡ false
      → Awaits run (position ws run) s (manage_queue m now later run ws s)
  unfolding manage_queue
  manage_queue-waits run ws s q a h =
      rw (q, ==_of_ne a) (await_turn-Awaits run (position ws run) s h)

-- A queueable run that is neither active nor failed gets no pod: the chain of updaters leaves the
-- cluster as it was, and bails out without a panic.
pub process_chain-waits :
    (k : Client) (doc : IsDocumented k.conditions) (version : Version) (image : String)
    (now later : ℕ) (run : Run) (ws : Workspace) (s : k.State)
    → is_queueable run.command ≡ true
    → ws.status.active ≢ run.name
    → k.conditions.is_status_condition_true run.conditions run_failed_condition ≡ false
    → (r : Run) × (e : Option Error) × (process_chain k version image now later run ws s
        ≡ step r true e s)
unfolding process_chain
process_chain-waits k doc version image now later run ws s q a h =
    let (r, same, phase, over) = manage_queue-waits k.conditions doc now later run ws s q a h in
    (
      r,
      (if is_late k.conditions now later run (position ws run)
          then some (timeout_error (position ws run))
          else none),
      rw (same, process_chain),
    )
