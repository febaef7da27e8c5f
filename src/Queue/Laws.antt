-- ===== src/Queue/Laws.antt =====
-- What `updateCombinedQueue` leaves in the status of a workspace.
use etok.Base.{
  ℕ, zero, suc, ◌≡◌, refl, sym, ap, ◌∙◌, ◌≢◌, ◌↔◌, inl, inr, String, true, false, ◌&&◌, some, List,
  [], ◌∷◌, ◌++◌, arith, eq_iff, ◌==◌, ==_refl, Bool-cases, filter, map, contains, Distinct,
  get_elem?,
}
use etok.Slice.{contains_string, string_index}
use etok.Commands.{is_queueable}
use etok.Api.Run.{Run, is_done}
use etok.Api.Workspace.{Workspace, is_run_approved}
use etok.Queue.{is_enqueued, filter_runs, move_to_front, reorder, assign, update_combined_queue}
use etok.Queue.Members.{reorder-Distinct, contains-reorder}
use etok.Queue.Order.{others, reorder_lem, reorder_self}

-- The active run with the queue behind it, as the code joins them.
abbrev pub combined : Workspace → List String
combined ws = ws.status.active ∷ ws.status.queue

abbrev pub names : List Run → List String
names runs = map (λ run. run.name) runs

contains-filter_runs :
    (ws : Workspace) (runs : List Run) (name : String)
    → contains (names runs) name ≡ false
    → contains (filter_runs ws runs) name ≡ false
unfolding filter_runs
contains-filter_runs ws [] name h = refl
contains-filter_runs ws (run ∷ runs) name h = ground (arith, contains-filter_runs ws runs name)

filter_runs-Distinct :
    (ws : Workspace) (runs : List Run) → Distinct (names runs) → Distinct (filter_runs ws runs)
unfolding filter_runs
filter_runs-Distinct ws [] d = tt
filter_runs-Distinct ws (run ∷ runs) (fresh, d) = elim (Bool-cases (is_enqueued ws run)) [
  | inl yes' ↦
      rw yes' ((contains-filter_runs ws runs run.name fresh, filter_runs-Distinct ws runs d))
  | inr no' ↦ rw no' (filter_runs-Distinct ws runs d)
]

-- While run names are unique, the new combined queue holds first those of the old one that are
-- still eligible, in their old order, and behind them the newly eligible, in the order listed.
pub update_combined_queue-order :
    (ws : Workspace) (runs : List Run)
    → Distinct (combined ws)
    → Distinct (names runs)
    → update_combined_queue ws runs
      ≡ assign ws (
          filter (contains (filter_runs ws runs)) (combined ws)
          ++ others (combined ws) (filter_runs ws runs))
unfolding update_combined_queue
update_combined_queue-order ws runs d e =
    ap (assign ws) (reorder_lem (combined ws) _ d (filter_runs-Distinct ws runs e))

pub update_combined_queue-keeps_active :
    (ws : Workspace) (runs : List Run)
    → Distinct (combined ws)
    → Distinct (names runs)
    → contains (filter_runs ws runs) ws.status.active ≡ true
    → (update_combined_queue ws runs).status.active ≡ ws.status.active
update_combined_queue-keeps_active ws runs d e h = rw (update_combined_queue-order ws runs d e, h)

combined-assign :
    (ws : Workspace) (q : List String) (name : String)
    → name ≢ ""
    → contains (combined (assign ws q)) name ≡ contains q name
combined-assign ws [] name h = ground (arith, eq_iff "" name)
combined-assign ws (x ∷ q) name h = refl

-- Every reason for which the first loop skips a run is absent.
abbrev pub Eligible : Workspace → Run → Type 0
Eligible ws run =
    (run.workspace ≡ ws.name)
    × (is_done run ≡ false)
    × (is_queueable run.command ≡ true)
    × (contains_string ws.spec.privileged_commands run.command ≡ true
        → is_run_approved ws run ≡ true)

pub is_enqueued_iff : (ws : Workspace) (run : Run) → (is_enqueued ws run ≡ true) ↔ Eligible ws run
unfolding is_enqueued
is_enqueued_iff ws run = ground (arith, eq_iff run.workspace ws.name)

-- A listed run of the name that is eligible.
abbrev pub EligibleNamed : Workspace → List Run → String → Type 0
EligibleNamed ws runs name =
    (i : ℕ) × (run : Run) × (get_elem? runs i ≡ some run) × (run.name ≡ name) × Eligible ws run

filter_runs_sound :
    (ws : Workspace) (runs : List Run) (name : String)
    → contains (filter_runs ws runs) name ≡ true
    → EligibleNamed ws runs name
unfolding filter_runs
filter_runs_sound ws [] name h = cc
filter_runs_sound ws (run ∷ runs) name h =
    elim (Bool-cases (is_enqueued ws run && run.name == name)) [
      | inl here ↦ (
        0,
        run,
        refl,
        ground (arith, eq_iff run.name name),
        ground (arith, is_enqueued_iff ws run),
      )
      | inr later ↦
          let (i, r, found, named, fit) = filter_runs_sound ws runs name (ground arith) in
          (suc i, r, found, named, fit)
    ]

pub filter_runs_complete :
    (ws : Workspace) (runs : List Run) (i : ℕ) (run : Run)
    → get_elem? runs i ≡ some run
    → is_enqueued ws run ≡ true
    → contains (filter_runs ws runs) run.name ≡ true
unfolding filter_runs
filter_runs_complete ws [] i run g h = cc
filter_runs_complete ws (r ∷ runs) zero run g h = ground (arith, eq_iff r.name run.name)
filter_runs_complete ws (r ∷ runs) (suc i) run g h =
    ground (arith, filter_runs_complete ws runs i run g h)

-- While run names are unique: a name (other than the empty one) is the active run or waits in the
-- queue afterwards exactly when an eligible run of that name is listed. So no run that is done,
-- of another workspace, not queueable, or privileged and not approved stands in it.
pub update_combined_queue-eligible :
    (ws : Workspace) (runs : List Run) (name : String)
    → Distinct (names runs)
    → name ≢ ""
    → (contains (combined (update_combined_queue ws runs)) name ≡ true) ↔ EligibleNamed ws runs name
unfolding update_combined_queue
update_combined_queue-eligible ws runs name d h =
    let same =
      combined-assign ws (reorder (combined ws) (filter_runs ws runs)) name h
      ∙ contains-reorder (combined ws) _ name (filter_runs-Distinct ws runs d) in
    (
      λ c. filter_runs_sound ws runs name (sym same ∙ c),
      λ (i, run, at, named, fit).
          same
          ∙ (ap (contains (filter_runs ws runs)) (sym named)
              ∙ filter_runs_complete ws runs i run at ((is_enqueued_iff ws run).1 fit)),
    )

filter_runs-assign :
    (ws : Workspace) (q : List String) (runs : List Run)
    → filter_runs (assign ws q) runs ≡ filter_runs ws runs
unfolding filter_runs is_enqueued is_run_approved
filter_runs-assign ws [] [] = refl
filter_runs-assign ws (x ∷ q) [] = refl
filter_runs-assign ws [] (run ∷ runs) = rw (filter_runs-assign ws [] runs)
filter_runs-assign ws (x ∷ q) (run ∷ runs) = rw (filter_runs-assign ws (x ∷ q) runs)

-- No name stands twice in the combined queue afterwards.
pub update_combined_queue-Distinct :
    (ws : Workspace) (runs : List Run)
    → Distinct (names runs)
    → Distinct (combined (update_combined_queue ws runs))
unfolding update_combined_queue
update_combined_queue-Distinct ws runs d =
    go _ (reorder-Distinct (combined ws) _ (filter_runs-Distinct ws runs d))
  where
    go : (q : List String) → Distinct q → Distinct (combined (assign ws q))
    go [] e = (refl, tt)
    go (x ∷ q) e = e

eq-nil_of_contains : (q : List String) → ((name : String) → contains q name ≡ false) → q ≡ []
eq-nil_of_contains [] h = refl
eq-nil_of_contains (x ∷ q) h = ground (arith, h x, ==_refl x)

reorder-assign :
    (ws : Workspace) (r q : List String)
    → Distinct r
    → Distinct q
    → ((name : String) → contains r name ≡ contains q name)
    → assign (assign ws r) (reorder (combined (assign ws r)) q) ≡ assign ws r
unfolding reorder move_to_front
reorder-assign ws [] q d e same =
    rw (eq-nil_of_contains q (λ name. sym (same name))) (unfold string_index in refl)
reorder-assign ws (x ∷ r) q d e same =
    ap (assign (assign ws (x ∷ r))) (reorder_self (x ∷ r) q d e same)

-- A second update with the same runs changes nothing.
pub update_combined_queue-idempotent :
    (ws : Workspace) (runs : List Run)
    → Distinct (names runs)
    → update_combined_queue (update_combined_queue ws runs) runs ≡ update_combined_queue ws runs
unfolding update_combined_queue
update_combined_queue-idempotent ws runs d =
    let q = filter_runs ws runs in
    let r = reorder (combined ws) q in
    let e = filter_runs-Distinct ws runs d in
    ap (λ p. assign (assign ws r) (reorder (combined (assign ws r)) p))
      (filter_runs-assign ws r runs)
    ∙ reorder-assign ws r q (reorder-Distinct (combined ws) q e) e
        (λ name. contains-reorder (combined ws) q name e)
