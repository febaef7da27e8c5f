-- ===== src/Launcher/Launch/Laws.antt =====
-- What a failed launch leaves behind.
use etok.Base.{
  Bool-cases, ◌≡◌, refl, sym, ap, ◌∙◌, subst, ◌⊎◌, inl, inr, String, Bool, true, false, Option,
  none, some,
}
use etok.Labels.{Version}
use etok.Api.Run.{Run}
use etok.Kube
use etok.Kube.{Error, Get, Result, ok, err, ConfigMap, Client}
use etok.Kube.Effect.{Effect, Done, ◌>>=◌}
use etok.Launcher.{LauncherOptions, new_run}
use etok.Launcher.Laws.{new_run-namespace, new_run-name}
use etok.Launcher.Launch.{
  Launchpad, Session, LaunchFlags, outside, joined, archived, with_config_map, deploy_archive,
  recorded, create_run, deploy, follow, run, delete_archive, cleanup, ended, attempt,
}

-- What the API server does to the run of a name, as a client sees it: config maps leave it alone, a
-- create that fails changes nothing, and one that ends well makes a run that was not there.
pub record IsServer {S : Type 0} (sh : Launchpad S) (view : String → String → S → Get Run)
    : Type 0 where
  pub create_config_map-keeps :
      (cm : ConfigMap) (namespace name : String) (s : S)
      → view namespace name (sh.create_config_map cm s).1 ≡ view namespace name s
  pub delete_config_map-keeps :
      (a b namespace name : String) (s : S)
      → view namespace name (sh.delete_config_map a b s).1 ≡ view namespace name s
  pub create_run-fails :
      (r : Run) (namespace name : String) (s t : S) (e : Error)
      → sh.create_run r s ≡ (err e, t)
      → view namespace name t ≡ view namespace name s
  pub create_run-new :
      (r r' : Run) (s t : S)
      → sh.create_run r s ≡ (ok r', t)
      → view r.namespace r.name s ≡ Kube.Get.not_found

-- The run is as it was, or it was not there and its deletion has been asked for, with nothing done
-- to it after that.
abbrev pub IsCleaned :
    {S : Type 0} → Launchpad S → (String → String → S → Get Run) → LauncherOptions → S → S → Type 0
IsCleaned {S} sh view o s t =
    (view o.namespace o.run_name t ≡ view o.namespace o.run_name s)
    ⊎ ((view o.namespace o.run_name s ≡ Kube.Get.not_found)
        × ((u : S) × (view o.namespace o.run_name t
              ≡ view o.namespace o.run_name (sh.delete_run o.namespace o.run_name u).1)))

module _ (k : Client) (is_forbidden : Error → Bool) (sh : Launchpad k.State) (version : Version)
    (view : String → String → k.State → Get Run) (i : IsServer sh view) (s : k.State) where
  abbrev IsRecalled : LauncherOptions → Session k.State → Type 0
  IsRecalled o w =
      ((w.created_run ≡ true) × (view o.namespace o.run_name s ≡ Kube.Get.not_found))
      ⊎ ((w.created_run ≡ false)
          × (view o.namespace o.run_name w.world ≡ view o.namespace o.run_name s))

  delete_archive-keeps :
      (o : LauncherOptions) (b : Bool) (u : k.State)
      → view o.namespace o.run_name (delete_archive k is_forbidden sh version o b u)
        ≡ view o.namespace o.run_name u
  delete_archive-keeps o false u = refl
  delete_archive-keeps o true u =
      i.delete_config_map-keeps o.namespace o.run_name o.namespace o.run_name u

  cleanup-IsCleaned :
      (o : LauncherOptions) (w : Session k.State)
      → IsRecalled o w
      → IsCleaned sh view o s (cleanup k is_forbidden sh version o w)
  unfolding cleanup
  cleanup-IsCleaned o w (inl (created, missing)) =
      inr (missing, (w.world, rw created (delete_archive-keeps o w.created_archive _)))
  cleanup-IsCleaned o w (inr (nothing, same)) =
      inl (rw nothing (delete_archive-keeps o w.created_archive w.world ∙ same))

  -- A step that creates no run.
  abbrev Keeps : LauncherOptions → Session k.State → Session k.State → Type 0
  Keeps o w u =
      (u.created_run ≡ w.created_run)
      × (view o.namespace o.run_name u.world ≡ view o.namespace o.run_name w.world)

  archived-Keeps :
      (o : LauncherOptions) (x : Option Error × k.State) (w : Session k.State)
      → view o.namespace o.run_name x.1 ≡ view o.namespace o.run_name w.world
      → Keeps o w (archived k is_forbidden sh version x w).1
  archived-Keeps o (none, t) w kept = (refl, kept)
  archived-Keeps o (some e, t) w kept = (refl, kept)

  deploy_archive-Keeps :
      (f : LaunchFlags) (o : LauncherOptions) (root : String) (w : Session k.State)
      → Keeps o w (deploy_archive k is_forbidden sh version f o root w).1
  unfolding deploy_archive
  deploy_archive-Keeps f o root w = go (sh.config_map o.namespace o.run_name f.path root w.world)
    where
      go : (x : Result ConfigMap) → Keeps o w (with_config_map k is_forbidden sh version x w).1
      go (err e) = (refl, refl)
      go (ok cm) =
          archived-Keeps o (sh.create_config_map cm w.world) w
            (i.create_config_map-keeps cm o.namespace o.run_name w.world)

  abbrev IsUntouched : LauncherOptions → Session k.State → Type 0
  IsUntouched o w =
      (w.created_run ≡ false)
      × (view o.namespace o.run_name w.world ≡ view o.namespace o.run_name s)

  abbrev IsCreated : LauncherOptions → Session k.State → Type 0
  IsCreated o w = (w.created_run ≡ true) × (view o.namespace o.run_name s ≡ Kube.Get.not_found)

  abbrev IsAnswered : LauncherOptions → Result Run × Session k.State → Type 0
  IsAnswered o (ok r, w) = IsCreated o w
  IsAnswered o (err e, w) = IsUntouched o w

  create_run-IsAnswered :
      (o : LauncherOptions) (w : Session k.State)
      → IsUntouched o w
      → IsAnswered o (create_run k is_forbidden sh version o w)
  unfolding create_run
  create_run-IsAnswered o w (nothing, same) = go (sh.create_run (new_run version o) w.world) refl
    where
      go :
          (x : Result Run × k.State)
          → sh.create_run (new_run version o) w.world ≡ x
          → IsAnswered o (recorded k is_forbidden sh version x w)
      go (ok r, t) called = (
        refl,
        sym same
            ∙ (ap (λ n. view n o.run_name w.world) (sym (new_run-namespace version o))
                ∙ (ap (λ n. view (new_run version o).namespace n w.world)
                      (sym (new_run-name version o))
                    ∙ i.create_run-new (new_run version o) r w.world t called)),
      )
      go (err e, t) called = (
        nothing,
        i.create_run-fails (new_run version o) o.namespace o.run_name w.world t e called ∙ same,
      )

  abbrev IsDeployed : LauncherOptions → Result Run × Session k.State → Type 0
  IsDeployed o (ok r, w) = IsCreated o w
  IsDeployed o (err e, w) = IsRecalled o w

  recalled :
      (o : LauncherOptions) (r : Result Run) (u v : Session k.State)
      → IsAnswered o (r, u)
      → Keeps o u v
      → IsRecalled o v
  recalled o (ok r) u v (created, missing) kept = inl (kept.0 ∙ created, missing)
  recalled o (err e) u v (nothing, same) kept = inr (kept.0 ∙ nothing, kept.1 ∙ same)

  joined-IsDeployed :
      (o : LauncherOptions) (a : Result Done) (r : Result Run) (first : Bool)
      (u v : Session k.State)
      → IsAnswered o (r, u)
      → Keeps o u v
      → IsDeployed o (joined (a, r) first, v)
  joined-IsDeployed o (err e) (ok r) first u v h kept = recalled o (ok r) u v h kept
  joined-IsDeployed o (err e) (err f) true u v h kept = recalled o (err f) u v h kept
  joined-IsDeployed o (err e) (err f) false u v h kept = recalled o (err f) u v h kept
  joined-IsDeployed o (ok unit) (ok r) first u v (created, missing) kept =
      (kept.0 ∙ created, missing)
  joined-IsDeployed o (ok unit) (err f) first u v h kept = recalled o (err f) u v h kept

  deploy-IsDeployed :
      (f : LaunchFlags) (o : LauncherOptions) (root : String) (w : Session k.State)
      → IsUntouched o w
      → IsDeployed o (deploy k is_forbidden sh version f o root w)
  unfolding deploy
  deploy-IsDeployed f o root w (nothing, same) = elim (Bool-cases sh.archive_first) [
    | inl first ↦
        let (a, u) = deploy_archive k is_forbidden sh version f o root w in
        let kept = deploy_archive-Keeps f o root w in
        rw first (
          joined-IsDeployed o a (create_run k is_forbidden sh version o u).0 true
            (create_run k is_forbidden sh version o u).1 _
            (create_run-IsAnswered o u (kept.0 ∙ nothing, kept.1 ∙ same)) (refl, refl))
    | inr later ↦
        let (r, u) = create_run k is_forbidden sh version o w in
        rw later (
          joined-IsDeployed o (deploy_archive k is_forbidden sh version f o root u).0 r false u _
            (create_run-IsAnswered o w (nothing, same)) (deploy_archive-Keeps f o root u))
  ]

  abbrev start : Session k.State
  start = record { created_run = false; created_archive = false; world = s }

  followed-IsRecalled :
      (o : LauncherOptions) (x : Result Run × Session k.State) (next : Run → Effect k.State Done)
      {w : Session k.State} {e : Error}
      → IsDeployed o x
      → ((λ _. x) >>= λ r. outside (next r)) start ≡ (err e, w)
      → IsRecalled o w
  followed-IsRecalled o (ok r, u) next {w} kept h =
      let same : u.created_run ≡ w.created_run = ap (λ p. p.1.created_run) h in
      inl (sym same ∙ kept.0, kept.1)
  followed-IsRecalled o (err e, u) next kept h = subst (λ v. IsRecalled o v) (ap (λ p. p.1) h) kept

abbrev error_of : Error → Result Done → Error
error_of fallback (ok unit) = fallback
error_of fallback (err e) = e

-- A launch that fails with an error that is no exit code, with the clean-up enabled, leaves the run
-- of its name as it was, or the run was not there at the start and its deletion has been asked for:
-- a run that was there before is not touched, in both orders in which the deployment's parts end.
pub attempt-fails :
    (k : Client) (is_forbidden : Error → Bool) (sh : Launchpad k.State) (version : Version)
    (view : String → String → k.State → Get Run) (f : LaunchFlags) (o : LauncherOptions)
    (root : String) (s : k.State) {t : k.State} {e : Error}
    → IsServer sh view
    → sh.is_exit e ≡ false
    → o.disable_resource_cleanup ≡ false
    → attempt k is_forbidden sh version f o root s ≡ (err e, t)
    → IsCleaned sh view o s t
unfolding attempt run
attempt-fails k is_forbidden sh version view f o root s {t} {e} i inner enabled h =
    go (run k is_forbidden sh version f o root (start k is_forbidden sh version view i s)) refl h
  where
    go :
        (x : Result Done × Session k.State)
        → run k is_forbidden sh version f o root (start k is_forbidden sh version view i s) ≡ x
        → ended k is_forbidden sh version o x ≡ (err e, t)
        → IsCleaned sh view o s t
    go (ok unit, w) failed h = cc
    go (err g, w) failed h =
        let same : sh.is_exit g ≡ false = ap (λ p. sh.is_exit (error_of g p.0)) h ∙ inner in
        subst (λ v. IsCleaned sh view o s v) (rw (same, enabled) at (ap (λ p. p.1) h))
          (cleanup-IsCleaned k is_forbidden sh version view i s o w (
            followed-IsRecalled k is_forbidden sh version view i s o
              (deploy k is_forbidden sh version f o root (start k is_forbidden sh version view i s))
              (follow k is_forbidden sh version f o)
              (deploy-IsDeployed k is_forbidden sh version view i s f o root
                (start k is_forbidden sh version view i s) (refl, refl))
              failed))
