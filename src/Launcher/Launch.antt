-- ===== src/Launcher/Launch.antt =====
-- cmd/launcher/launcher.go: the deployment, the run and the clean-up of a launch.
pub mod Laws
use etok.Base.{
  ℕ, String, ◌<>◌, Bool, true, false, not, ◌||◌, Option, none, some, List, [], ◌∷◌, if◌then◌else◌,
}
use etok.Base.FilePath.{path_join}
use etok.Labels.{Version}
use etok.Api.Run.{Run, run_lock_file_config_map_name}
use etok.Commands.{updates_lock_file}
use etok.Kube
use etok.Kube.{Error, Get, Result, ok, err, ConfigMap, Client}
use etok.Kube.Effect.{Effect, Done, pure, raise, lift, checked, call, ◌>>=◌, ◌>>◌}
use etok.Env.{Env}
use etok.Env.File.{Files, read_env}
use etok.GitRepo.{GitRepo, Opened, open_repo}
use etok.Launcher.{LauncherOptions, new_run, check_workspace}
use etok.WorkspaceCmd.{Waited, reached, timed_out, wait_failed, unless_absent}
use etok.WorkspaceCmd.New.{wait_error, first_error}

-- What a launch calls beside the client. The two goroutines of the deployment end in one of two
-- orders; the waits for a run end with the first error in an order of their own.
pub record Launchpad (S : Type 0) : Type 0 where
  pub files : Files S
  pub find_repo : String → S → Opened
  pub create_client : S → Result Done
  pub config_map : String → String → String → String → S → Result ConfigMap
  pub create_config_map : ConfigMap → S → Option Error × S
  pub create_run : Run → S → Result Run × S
  pub delete_run : String → String → S → Option Error × S
  pub delete_config_map : String → String → S → Option Error × S
  pub archive_first : Bool
  pub wait_for_reconcile : Run → S → Waited
  pub watch_run : Run → S → Option Error
  pub finishing_order : List (Option Error) → List (Option Error)
  pub connect : Bool → String → S → Option Error
  pub exit : String → S → Option (Option Error)
  -- An error that is the exit code of the program.
  pub is_exit : Error → Bool
  pub get_lock_file : String → String → S → Get String

-- What the options recall, beside the world.
pub record Session (S : Type 0) : Type 0 where
  pub created_run : Bool
  pub created_archive : Bool
  pub world : S

pub record LaunchFlags : Type 0 where
  pub path : String
  pub namespace_passed : Bool
  pub workspace_passed : Bool

-- The values of the environment file, unless a flag is passed.
abbrev overridden : LaunchFlags → Option Env → LauncherOptions → LauncherOptions
overridden f none o = o
overridden f (some e) o = record o {
  namespace = if f.namespace_passed then o.namespace else e.namespace;
  workspace = if f.workspace_passed then o.workspace else e.workspace;
}

module _ {S A : Type 0} where
  abbrev pub outside : Effect S A → Effect (Session S) A
  outside m w = let (r, s) = m w.world in (r, record w { world = s })

-- The error of the goroutine that has ended first.
abbrev pub joined : Result Done × Result Run → Bool → Result Run
joined (err e, ok run) first = err e
joined (err e, err f) first = if first then err e else err f
joined (ok unit, r) first = r

abbrev exit_error : Option (Option Error) → Result Done
exit_error none = err "timed out waiting for exit code"
exit_error (some none) = ok tt
exit_error (some (some e)) = err e

module _ (k : Client) (is_forbidden : Error → Bool) (sh : Launchpad k.State)
    (version : Version) where
  abbrev pub archived : Option Error × k.State → Session k.State → Result Done × Session k.State
  archived (none, s) w = (ok tt, record w { created_archive = true; world = s })
  archived (some e, s) w = (err e, record w { world = s })

  abbrev pub with_config_map : Result ConfigMap → Effect (Session k.State) Done
  with_config_map (err e) w = (err e, w)
  with_config_map (ok cm) w = archived (sh.create_config_map cm w.world) w

  unfoldable pub deploy_archive :
      LaunchFlags → LauncherOptions → String → Effect (Session k.State) Done
  deploy_archive f o root w =
      with_config_map (sh.config_map o.namespace o.run_name f.path root w.world) w

  abbrev pub recorded : Result Run × k.State → Session k.State → Result Run × Session k.State
  recorded (ok run, s) w = (ok run, record w { created_run = true; world = s })
  recorded (err e, s) w = (err e, record w { world = s })

  -- `createRun`
  unfoldable pub create_run : LauncherOptions → Effect (Session k.State) Run
  unfolding new_run
  create_run o w = recorded (sh.create_run (new_run version o) w.world) w

  unfoldable pub deploy : LaunchFlags → LauncherOptions → String → Effect (Session k.State) Run
  unfolding deploy_archive create_run
  deploy f o root w =
      if sh.archive_first
      then (let (a, u) = deploy_archive f o root w in
          let (r, v) = create_run o u in (joined (a, r) true, v))
      else (let (r, u) = create_run o w in
          let (a, v) = deploy_archive f o root u in (joined (a, r) false, v))

  wait_all : Run → k.State → Result Done
  wait_all run s = first_error (
      sh.finishing_order (
        wait_error "timed out waiting for run to be reconciled" (sh.wait_for_reconcile run s)
        ∷ sh.watch_run run s
        ∷ []))

  -- The lock file, which is written beside the root module; a missing one is a warning.
  write_lock_file : LaunchFlags → Get String → Effect k.State Done
  write_lock_file f Kube.Get.not_found = pure tt
  write_lock_file f (Kube.Get.failed e) = raise ("unable to retrieve .terraform.lock.hcl: " <> e)
  write_lock_file f (Kube.Get.found content) =
      call (sh.files.write_file (path_join (f.path ∷ ".terraform.lock.hcl" ∷ [])) content)

  lock_file : LaunchFlags → LauncherOptions → Run → Effect k.State Done
  unfolding write_lock_file
  lock_file f o run s =
      if updates_lock_file o.command
      then write_lock_file f
          (sh.get_lock_file o.namespace (run_lock_file_config_map_name run.name) s) s
      else pure tt s

  abbrev given : Option Error → Result Done
  given none = ok tt
  given (some e) = err e

  -- What is done once the run is deployed.
  follow : LaunchFlags → LauncherOptions → Run → Effect k.State Done
  unfolding wait_all lock_file
  follow f o run = do
    call (check_workspace k is_forbidden o run)
    checked (wait_all run)
    checked (λ s. given (sh.connect o.attach o.run_name s))
    checked (λ s. exit_error (sh.exit o.run_name s))
    lock_file f o run

  unfoldable pub run : LaunchFlags → LauncherOptions → String → Effect (Session k.State) Done
  unfolding deploy follow
  run f o root = do r ← deploy f o root; outside (follow f o r)

  abbrev pub delete_archive : LauncherOptions → Bool → k.State → k.State
  delete_archive o false s = s
  delete_archive o true s = (sh.delete_config_map o.namespace o.run_name s).1

  unfoldable pub cleanup : LauncherOptions → Session k.State → k.State
  cleanup o w =
      if w.created_run
      then delete_archive o w.created_archive (sh.delete_run o.namespace o.run_name w.world).1
      else delete_archive o w.created_archive w.world

  abbrev pub ended : LauncherOptions → Result Done × Session k.State → Result Done × k.State
  ended o (ok unit, w) = (ok tt, w.world)
  ended o (err e, w) =
      (err e, if sh.is_exit e || o.disable_resource_cleanup then w.world else cleanup o w)

  -- `run`, and the clean-up after an error that is no exit code.
  unfoldable pub attempt : LaunchFlags → LauncherOptions → String → Effect k.State Done
  unfolding run cleanup
  attempt f o root s =
      ended o (run f o root (record { created_run = false; created_archive = false; world = s }))

  -- The command.
  unfoldable pub launch : LaunchFlags → LauncherOptions → Effect k.State Done
  unfolding attempt
  launch f o = do
    repo ← checked (λ s. open_repo (sh.find_repo f.path s))
    checked sh.create_client
    e ← checked (read_env sh.files f.path)
    root ← unless_absent repo.worktree_root
    attempt f (overridden f e o) root
