-- ===== src/CheckRun/Laws.antt =====
-- Iterations of a check run.
use etok.Base.{
  ℕ, zero, suc, ◌+◌, ◌-◌, ◌≤◌, ◌<◌, ◌≡◌, refl, ap, ◌∙◌, Bool, true, false, some, List, [], ◌∷◌,
  ◌++◌, arith, if◌then◌else◌, nat_eq, length, length-append, get_elem?, nat_eq_refl,
}
use etok.CheckRun.{
  CheckRun, CheckRunEvent, CheckRunIteration, is_request, iteration_loop, current_iteration,
  last_event, current_event, command, command_of_action, apply_cmd, target_plan, new_plan_path,
  etok_run_name, etok_run_name_by_iteration, populate, complete_at, is_completed,
  set_iteration_status, completed_at,
}

length-populate :
    (cr : CheckRun) (rounds i : ℕ) (iterations : List CheckRunIteration)
    → length (populate cr rounds i iterations) ≡ length iterations + rounds
unfolding populate
length-populate cr zero i its = omega arith
length-populate cr (suc r) i its = omega (
  arith,
  length-populate cr r (suc i) _,
  length-append its (record { run = etok_run_name_by_iteration cr i; completed = false } ∷ []),
)

length-complete_at :
    (i : ℕ) (completed : Bool) (its : List CheckRunIteration)
    → length (complete_at i completed its) ≡ length its
unfolding complete_at
length-complete_at i completed [] = refl
length-complete_at zero completed (it ∷ its) = refl
length-complete_at (suc i) completed (it ∷ its) = ap suc (length-complete_at i completed its)

get_elem?-complete_at :
    (i : ℕ) (completed : Bool) (its : List CheckRunIteration)
    → i < length its
    → (it : CheckRunIteration) × (get_elem? (complete_at i completed its) i ≡ some it)
      × (it.completed ≡ completed)
unfolding complete_at
get_elem?-complete_at i completed [] h = elim h [ ]
get_elem?-complete_at zero completed (it ∷ its) h =
    (record it { completed = completed }, refl, refl)
get_elem?-complete_at (suc i) completed (it ∷ its) h =
    get_elem?-complete_at i completed its (omega arith)

is_completed_lem :
    (i : ℕ) (completed : Bool) (its : List CheckRunIteration)
    → length its ≡ i + 1
    → (it : CheckRunIteration) × (get_elem? its i ≡ some it) × (it.completed ≡ completed)
    → (if nat_eq (length its) (i + 1) then completed_at (get_elem? its i) else false) ≡ completed
is_completed_lem i completed its l (it, at, c) = rw (l, nat_eq_refl (i + 1), at) c

-- While a check run has no more iterations than were asked for, setting the status of the current
-- iteration gives it exactly those, and is read back by `isCompleted`.
pub is_completed-set_iteration_status :
    (completed : Bool) (cr : CheckRun)
    → length cr.status.iterations ≤ current_iteration cr + 1
    → (is_completed (set_iteration_status completed cr) ≡ completed)
      × (length (set_iteration_status completed cr).status.iterations ≡ current_iteration cr + 1)
unfolding set_iteration_status is_completed current_iteration
is_completed-set_iteration_status completed cr h =
    let n = length cr.status.iterations in
    let i = iteration_loop 0 cr.status.events in
    let full = populate cr (i + 1 - n) n cr.status.iterations in
    let l : length full ≡ i + 1 =
      omega (arith, length-populate cr (i + 1 - n) n cr.status.iterations, h) in
    let l' : length (complete_at i completed full) ≡ i + 1 =
      length-complete_at i completed full ∙ l in
    (
      is_completed_lem i completed (complete_at i completed full) l'
          (get_elem?-complete_at i completed full (omega (arith, l))),
      l',
    )

iteration_loop-snoc :
    (i : ℕ) (events : List CheckRunEvent) (ev : CheckRunEvent)
    → is_request ev ≡ true
    → iteration_loop i (events ++ (ev ∷ [])) ≡ suc (iteration_loop i events)
unfolding iteration_loop
iteration_loop-snoc i [] ev e = rw e refl
iteration_loop-snoc i (x ∷ events) ev e = iteration_loop-snoc _ events ev e

pub last_event-snoc :
    (events : List CheckRunEvent) (ev : CheckRunEvent) → last_event (events ++ (ev ∷ [])) ≡ some ev
unfolding last_event
last_event-snoc [] ev = refl
last_event-snoc (x ∷ []) ev = refl
last_event-snoc (x ∷ y ∷ events) ev = last_event-snoc (y ∷ events) ev

-- A check run that has received one more event.
abbrev pub received : CheckRunEvent → CheckRun → CheckRun
received ev cr = record cr {
  status = record (cr.status) { events = cr.status.events ++ (ev ∷ []) };
}

-- When a check run receives an event that requests the action `apply`, the plan file that it
-- applies is the one that a plan of the iteration before that event wrote.
pub target_plan-apply :
    (ev : CheckRunEvent) (cr : CheckRun)
    → ev.requested_action ≡ some "apply"
    → target_plan (received ev cr) ≡ new_plan_path (etok_run_name cr)
unfolding target_plan command current_event current_iteration etok_run_name
target_plan-apply ev cr action =
    let request : is_request ev ≡ true = rw action (ground arith) in
    let apply' : command_of_action ev.requested_action ≡ apply_cmd = rw action refl in
    let before : suc (iteration_loop 0 cr.status.events) - 1 ≡ iteration_loop 0 cr.status.events =
      omega arith in
    rw
      (
        last_event-snoc cr.status.events ev,
        apply',
        command_of_action,
        iteration_loop-snoc 0 cr.status.events ev request,
        before,
      )
      refl
