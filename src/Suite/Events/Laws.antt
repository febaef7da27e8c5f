-- ===== src/Suite/Events/Laws.antt =====
-- The events of check runs: which check run they reach, and what they change of it.
use Prim.Native.Char.{Char}
use etok.Base.{
  subst, sym, ==_cases, inl, inr, ◌++◌, ℕ, suc, String, ◌<>◌, ◌≡◌, refl, false, ◌&&◌, ◌||◌, none,
  some, List, [], ◌∷◌, arith, ◌==◌, if◌then◌else◌,
}
use etok.Base.Text.{has_char, split, split-sep, split_plain}
use etok.Kube
use etok.Kube.{Result, ok, err}
use etok.Kube.Effect.{Effect, Done, call}
use etok.CheckRun.{
  CheckRun, CheckRunEvent, plan_cmd, apply_cmd, command, current_event, current_iteration,
  iteration_loop, is_request,
}
use etok.CheckRun.Update.{CheckRunUpdate, external_id}
use etok.CheckRun.Laws.{last_event-snoc}
use etok.Suite.Events.{
  AppClient, RunEvent, event_of, add_event, check_key, object_key, handle_check_run_event,
}

-- The key that is read from the identifier of an update is the key of its check run.
check_key-external_id :
    (u : CheckRunUpdate)
    → has_char b'/' u.check_run.namespace ≡ false
    → has_char b'/' u.check_run.name ≡ false
    → check_key (split b'/' (external_id u)) ≡ some (u.check_run.namespace, u.check_run.name)
unfolding external_id
check_key-external_id u n w =
    let slash : Char = "/" in
    rw
      (
        split-sep slash u.check_run.namespace u.check_run.name n,
        split_plain b'/' u.check_run.name w,
      )
      refl

-- An identifier that was sent for a check run comes back with an event: the event is added to the
-- events of that check run, if it can be read and written, and trying again leaves a call alone
-- that ends well the first time. Names have no slash.
pub handle_check_run_event-reaches :
    {S : Type 0} (c : AppClient S) (u : CheckRunUpdate) (check : CheckRun) (ev : RunEvent)
    (action : String) (e : CheckRunEvent) (s t : S)
    → has_char b'/' u.check_run.namespace ≡ false
    → has_char b'/' u.check_run.name ≡ false
    → ev.external_id ≡ external_id u
    → event_of ev action ≡ some e
    → c.get_check_run u.check_run.namespace u.check_run.name s ≡ Kube.Get.found check
    → c.update_check_run_status (add_event e check) s ≡ (none, t)
    → ((m : Effect S Done) → m s ≡ (ok tt, t) → c.retry_on_conflict m s ≡ (ok tt, t))
    → handle_check_run_event c ev action s ≡ (
      ok (
          "added "
          <> (action
              <> (" event to check run resource: " <> object_key check.namespace check.name))),
      t,
    )
unfolding handle_check_run_event
handle_check_run_event-reaches c u check ev action e s t n w sent known read wrote retried =
    let key = check_key-external_id u n w in
    let once =
      retried (call (c.update_check_run_status (add_event e check))) (rw (call, wrote) refl) in
    rw (handle_check_run_event, sent, key, read, known, once) refl

iteration_loop-received :
    (i : ℕ) (events : List CheckRunEvent) (ev : CheckRunEvent)
    → iteration_loop i (events ++ (ev ∷ []))
      ≡ (if is_request ev then suc (iteration_loop i events) else iteration_loop i events)
unfolding iteration_loop
iteration_loop-received i [] ev = refl
iteration_loop-received i (x ∷ events) ev = iteration_loop-received _ events ev

abbrev Effects : RunEvent → String → CheckRunEvent → CheckRun → Type 0
Effects ev action e check =
    (current_iteration (add_event e check) ≡ (
      if action == "rerequested" || action == "requested_action"
      then suc (current_iteration check)
      else current_iteration check))
    × (command (add_event e check) ≡ (
        if action == "requested_action" && ev.requested_action == "apply"
        then apply_cmd
        else plan_cmd))

-- The same at each action that the app knows.
Effects-created :
    (ev : RunEvent) (e : CheckRunEvent) (check : CheckRun)
    → event_of ev "created" ≡ some e
    → Effects ev "created" e check
unfolding event_of command current_event current_iteration
Effects-created ev e check h =
    rw (iteration_loop-received 0 check.status.events e, last_event-snoc check.status.events e)
      (ground arith)

Effects-rerequested :
    (ev : RunEvent) (e : CheckRunEvent) (check : CheckRun)
    → event_of ev "rerequested" ≡ some e
    → Effects ev "rerequested" e check
unfolding event_of command current_event current_iteration
Effects-rerequested ev e check h =
    rw (iteration_loop-received 0 check.status.events e, last_event-snoc check.status.events e)
      (ground arith)

Effects-requested_action :
    (ev : RunEvent) (e : CheckRunEvent) (check : CheckRun)
    → event_of ev "requested_action" ≡ some e
    → Effects ev "requested_action" e check
unfolding event_of command current_event current_iteration
Effects-requested_action ev e check h =
    rw (iteration_loop-received 0 check.status.events e, last_event-snoc check.status.events e)
      (ground arith)

Effects-completed :
    (ev : RunEvent) (e : CheckRunEvent) (check : CheckRun)
    → event_of ev "completed" ≡ some e
    → Effects ev "completed" e check
unfolding event_of command current_event current_iteration
Effects-completed ev e check h =
    rw (iteration_loop-received 0 check.status.events e, last_event-snoc check.status.events e)
      (ground arith)

-- The events that the app adds: only a rerequest and a requested action begin another iteration,
-- and only the requested action `apply` makes the command of the check run an apply; any other
-- event that comes after it makes the command a plan again.
pub event_of-effects :
    (ev : RunEvent) (action : String) (e : CheckRunEvent) (check : CheckRun)
    → event_of ev action ≡ some e
    → (current_iteration (add_event e check) ≡ (
        if action == "rerequested" || action == "requested_action"
        then suc (current_iteration check)
        else current_iteration check))
      × (command (add_event e check) ≡ (
          if action == "requested_action" && ev.requested_action == "apply"
          then apply_cmd
          else plan_cmd))
unfolding event_of
event_of-effects ev action e check h = elim (==_cases action "created") [
  | inl (t, p) ↦ at "created" p (Effects-created ev e check)
  | inr (a, _) ↦ elim (==_cases action "rerequested") [
    | inl (t, p) ↦ at "rerequested" p (Effects-rerequested ev e check)
    | inr (b, _) ↦ elim (==_cases action "requested_action") [
      | inl (t, p) ↦ at "requested_action" p (Effects-requested_action ev e check)
      | inr (c, _) ↦ elim (==_cases action "completed") [
        | inl (t, p) ↦ at "completed" p (Effects-completed ev e check)
        | inr (d, _) ↦ ground arith
      ]
    ]
  ]
]
  where
    at :
        (known : String)
        → action ≡ known
        → (event_of ev known ≡ some e → Effects ev known e check)
        → Effects ev action e check
    at known p effects =
        subst (λ a. event_of ev a ≡ some e → Effects ev a e check) (sym p) effects h
