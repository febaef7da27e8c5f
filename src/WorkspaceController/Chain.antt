-- ===== src/WorkspaceController/Chain.antt =====
-- The chain of status updaters of a workspace: deletion, and what it leaves in the queue.
use etok.Base.{ℕ, String, true, false, ◌≡◌, refl, ap, ◌∙◌, none, some, List, [], ◌∷◌, arith, All}
use etok.Labels.{Version}
use etok.Api.Meta.{IsDocumented}
use etok.Api.Run.{Run}
use etok.Api.Workspace.{Workspace, WorkspacePhase}
use etok.Kube.{ok, Client}
use etok.Queue.{update_combined_queue}
use etok.RunController.Conditions.{set_phase}
use etok.WorkspaceController.State.{Services, Step, step, manage_state}
use etok.WorkspaceController.Manage
use etok.WorkspaceController.Manage.{handle_deletion, deleting, set_ready}
use etok.WorkspaceController.Reconcile.{Updater, proceed, run_chain, chain}
use etok.WorkspaceController.Ready.{set_phase-set_ready}
use etok.WorkspaceController.Keeps.{
  view, workspace_of, Keeps, manage_builtins-Keeps, manage_state-Keeps,
  manage_rbac_for_namespace-Keeps, manage_pvc-Keeps, manage_pod-Keeps,
}

proceed-Keeps :
    {S : Type 0} (rest : Workspace → S → Step S) (ws : Workspace) (r : Step S)
    → Keeps rest
    → view (workspace_of r) ≡ view ws
    → view (workspace_of (proceed rest r)) ≡ view ws
unfolding proceed
proceed-Keeps rest ws (step ws' true failure s) keeps e = e
proceed-Keeps rest ws (step ws' false (some x) s) keeps e = e
proceed-Keeps rest ws (step ws' false none s) keeps e = keeps ws' s ∙ e

run_chain-Keeps : {S : Type 0} (fs : List (Updater S)) → All Keeps fs → Keeps (run_chain fs)
unfolding run_chain
run_chain-Keeps [] k ws s = refl
run_chain-Keeps (f ∷ fs) (kf, k) ws s =
    proceed-Keeps (run_chain fs) ws (f ws s) (run_chain-Keeps fs k) (kf ws s)

module _ (k : Client) (services : Services k.State) (version : Version) (image : String)
    (now : ℕ) where
  handle_deletion-none :
      (ws : Workspace) (s : k.State)
      → ws.deletion_timestamp ≡ none
      → handle_deletion k services version image now ws s ≡ step ws false none s
  unfolding handle_deletion
  handle_deletion-none ws s e = ground (arith, e)

  manage_queue-ok :
      (ws : Workspace) (s : k.State) {runs : List Run}
      → k.list_runs ws.namespace s ≡ ok runs
      → Manage.manage_queue k services version image now ws s
        ≡ step (update_combined_queue ws runs) false none s
  unfolding Manage.manage_queue
  manage_queue-ok ws s l = rw (l, Manage.manage_queue) refl

  -- The updaters after the queue's.
  abbrev rest : List (Updater k.State)
  rest =
      Manage.manage_builtins k services version image now
      ∷ Manage.manage_rbac_for_namespace k services version image now
      ∷ manage_state k services
      ∷ Manage.manage_pvc k services version image now
      ∷ Manage.manage_pod k services version image now
      ∷ []

  rest-Keeps : Keeps (run_chain rest)
  rest-Keeps = run_chain-Keeps rest (
    manage_builtins-Keeps k services version image now,
    (
      manage_rbac_for_namespace-Keeps k services version image now,
      (
        manage_state-Keeps k services version image now,
        (
          manage_pvc-Keeps k services version image now,
          (manage_pod-Keeps k services version image now, _),
        ),
      ),
    ),
  )

  -- A workspace that is being deleted is given the phase Deleting, and nothing else is done: the
  -- rest of the chain does not run and the cluster is left as it was.
  pub run_chain-deletion :
      (doc : IsDocumented k.conditions) (ws : Workspace) (s : k.State) {t : ℕ}
      → ws.deletion_timestamp ≡ some t
      → (ws' : Workspace) × (run_chain (chain k services version image now) ws s
          ≡ step ws' true none s)
        × (set_phase k.conditions ws' ≡ WorkspacePhase.deleting)
        × (view ws' ≡ view ws)
  unfolding run_chain handle_deletion proceed
  run_chain-deletion doc ws s e = (
    set_ready k.conditions now ws deleting,
    rw e refl,
    set_phase-set_ready k.conditions doc now ws deleting refl,
    refl,
  )

  -- For a workspace that is not being deleted and whose runs can be listed, the active run and the
  -- queue after the chain are those of `updateCombinedQueue`, whatever fails after it.
  pub run_chain-queue :
      (ws : Workspace) (s : k.State) {runs : List Run}
      → ws.deletion_timestamp ≡ none
      → k.list_runs ws.namespace s ≡ ok runs
      → view (workspace_of (run_chain (chain k services version image now) ws s))
        ≡ view (update_combined_queue ws runs)
  unfolding run_chain proceed
  run_chain-queue ws s {runs} e l =
      let queue_first : Updater k.State =
        run_chain (Manage.manage_queue k services version image now ∷ rest) in
      ap (λ r. view (workspace_of (proceed queue_first r))) (handle_deletion-none ws s e)
      ∙ ap (λ r. view (workspace_of (proceed (run_chain rest) r))) (manage_queue-ok ws s l)
      ∙ rest-Keeps (update_combined_queue ws runs) s
