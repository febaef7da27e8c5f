-- ===== src/RunController/Keeps.antt =====
-- What the updaters of a run leave alone: all of the run but its status.
use etok.Base.{ℕ, ◌≡◌, ◌∙◌, String, Bool, true, false, Option, none, some, arith}
use etok.Labels.{Version}
use etok.Api.Run.{Run}
use etok.Api.Workspace.{Workspace}
use etok.Kube.{Error, Client}
use etok.RunController.Manage.{
  Step, step, panic, manage_queue, manage_pod, manage_found, create_pod, follow_pod,
}
use etok.RunController.Reconcile.{process_chain, next_pod}

-- The parts of a run that are not its status.
abbrev pub SameRun : Run → Run → Type 0
SameRun a b = (a.metadata ≡ b.metadata) × (a.spec ≡ b.spec)

abbrev pub Keeps : {S : Type 0} → Run → Step S → Type 0
Keeps run panic = Unit
Keeps run (step r bail e s) = SameRun r run

module _ (k : Client) (version : Version) (image : String) (now later : ℕ) where
  manage_queue-Keeps :
      (run : Run) (ws : Workspace) (s : k.State)
      → Keeps run (manage_queue k.conditions now later run ws s)
  unfolding manage_queue
  manage_queue-Keeps run ws s = ground arith

  manage_pod-Keeps :
      (run : Run) (ws : Workspace) (s : k.State)
      → Keeps run (manage_pod k version image now later run ws s)
  unfolding manage_pod manage_found create_pod follow_pod
  manage_pod-Keeps run ws s = ground arith

  next_pod-Keeps :
      (run r : Run) (ws : Workspace) (bail : Bool) (e : Option Error) (s : k.State)
      → SameRun r run
      → Keeps run (next_pod k version image now later ws r bail e s)
  unfolding next_pod
  next_pod-Keeps run r ws true e s h = h
  next_pod-Keeps run r ws false (some e) s h = h
  next_pod-Keeps run r ws false none s h = go _ (manage_pod-Keeps r ws s)
    where
      go : (q : Step k.State) → Keeps r q → Keeps run q
      go panic h' = tt
      go (step t bail e s') h' = (h'.0 ∙ h.0, h'.1 ∙ h.1)

  -- The updaters change nothing of a run but its status.
  pub process_chain-Keeps :
      (run : Run) (ws : Workspace) (s : k.State)
      → Keeps run (process_chain k version image now later run ws s)
  unfolding process_chain
  process_chain-Keeps run ws s = go _ (manage_queue-Keeps run ws s)
    where
      go :
          (q : Step k.State)
          → Keeps run q
          → Keeps run (elim q [
            | panic ↦ panic
            | step r bail e s' ↦ next_pod k version image now later ws r bail e s'
          ])
      go panic h = tt
      go (step r bail e s') h = next_pod-Keeps run r ws bail e s' h
