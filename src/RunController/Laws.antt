-- ===== src/RunController/Laws.antt =====
-- What a reconcile of a run does to the cluster.
use etok.Base.{ℕ, ◌≡◌, refl, String, true, false, none, ◌≢◌}
use etok.Labels.{Version}
use etok.Api.Meta.{IsDocumented, workspace_not_found_reason}
use etok.Api.Run.{Run, RunPhase, is_done}
use etok.Kube
use etok.Kube.{Error, Get, Result, Client, run_object, workspace_object}
use etok.RunController.Conditions.{run_failed, set_run_phase}
use etok.RunController.Manage.{set_condition}
use etok.RunController.Reconcile.{done, update_status, reconcile}
use etok.RunController.Phases.{set_run_phase-failed}

module _ (k : Client) (version : Version) (image : String) (now later : ℕ) where
  -- A run that is done, or gone, is left alone.
  pub reconcile-done :
      (namespace name : String) (s : k.State)
      → ((run : Run) → k.get_run namespace name s ≡ Kube.Get.found run → is_done run ≡ true)
      → ((e : Error) → k.get_run namespace name s ≢ Kube.Get.failed e)
      → reconcile k version image now later namespace name s ≡ done none s
  unfolding reconcile
  reconcile-done namespace name s h g = go (k.get_run namespace name s) refl
    where
      go :
          (o : Get Run)
          → k.get_run namespace name s ≡ o
          → reconcile k version image now later namespace name s ≡ done none s
      go Kube.Get.not_found p = rw (p, reconcile)
      go (Kube.Get.failed e) p = absurd (g e p)
      go (Kube.Get.found run) p = rw (p, reconcile) (rw (h run p))

  -- The workspace of a run that is not done is missing: the status written is that of a failed run,
  -- which is done, and its phase is the one that it had before.
  pub reconcile-workspace_not_found :
      (namespace name : String) (s : k.State) (run : Run)
      → IsDocumented k.conditions
      → k.get_run namespace name s ≡ Kube.Get.found run
      → is_done run ≡ false
      → k.get_workspace namespace run.workspace s ≡ Kube.Get.not_found
      → (r : Run) × (reconcile k version image now later namespace name s
          ≡ (let (e, t) = k.update_status (run_object r) s in done e t))
        × (is_done r ≡ true)
        × (set_run_phase k.conditions r ≡ RunPhase.failed)
        × (r.phase ≡ run.phase)
  unfolding reconcile
  reconcile-workspace_not_found namespace name s run doc h n g =
      let (failed, over) =
        set_run_phase-failed k.conditions doc now run workspace_not_found_reason
          "Workspace not found" in
      (
        set_condition k.conditions now run
            (run_failed workspace_not_found_reason "Workspace not found"),
        rw (h, reconcile) (rw n (rw (g, reconcile) (rw (h, update_status)))),
        over,
        failed,
        refl,
      )
