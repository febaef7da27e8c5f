-- ===== src/Tests/Suites.antt =====
-- Check suites: the clones of repositories, the reconciler and the events of Github.
use etok.Base.{
  subst, ap, Bool-cases, inl, inr, ◌≡◌, refl, String, ◌<>◌, Bool, true, ◌&&◌, none, some, List, [],
  ◌∷◌, arith, All, ◌==◌, ==_refl, if◌then◌else◌,
}
use etok.Base.Dict.{lookup, insert}
use etok.Base.Text.{has_char}
use etok.Base.FilePath.{path_join}
use etok.Api.Workspace.{Workspace}
use etok.Kube
use etok.Kube.{Get, Result, ok, err}
use etok.Kube.Effect.{each}
use etok.CheckRun.{CheckRun, CheckSuite, plan_cmd, command, current_iteration}
use etok.CheckRun.Update.{external_id}
use etok.Suite.{check_run_name}
use etok.Suite.Repos.{Repo, Origin, Git, Machine, new_repo_manager, clone, reap}
use etok.Suite.Repos.Laws.{Step, Steps, clone-survives}
use etok.Suite.Reconcile.{SuiteClient, reconcile, connected}
use etok.Suite.Reconcile.Laws.{IsServer, HasCheck, reconcile-IsChecked}
use etok.Suite.Events.{AppClient, RunEvent, event_of, add_event, handle_check_run_event, object_key}
use etok.Suite.Events.Laws.{handle_check_run_event-reaches, event_of-effects}
use etok.Tests.Data.{workspace, run_named}
use etok.Tests.Github.{check_run, suite, update_of, event}

-- A server that keeps its check runs in a list.
record Server : Type 0 where
  suite : CheckSuite
  workspaces : List Workspace
  checks : List CheckRun

abbrev is_named : String → String → CheckRun → Bool
is_named namespace name cr = cr.namespace == namespace && cr.name == name

abbrev find_check : String → String → List CheckRun → Get CheckRun
find_check namespace name [] = Kube.Get.not_found
find_check namespace name (cr ∷ checks) =
    let rest = find_check namespace name checks in
    if is_named namespace name cr then Kube.Get.found cr else rest

abbrev server : SuiteClient Server
server = record {
  get_check_suite = λ name s. Kube.Get.found s.suite;
  list_workspaces = λ s. ok s.workspaces;
  update_suite_status = λ suite s. (ok suite, record s { suite = suite });
  set_suite_owner = λ suite meta. ok meta;
  get_check_run = λ namespace name s. find_check namespace name s.checks;
  create_check_run = λ cr s. (none, record s { checks = cr ∷ s.checks });
}

server-create-found :
    (cr : CheckRun) (s t : Server)
    → server.create_check_run cr s ≡ (none, t)
    → HasCheck server cr.namespace cr.name t
server-create-found cr s t h =
    subst (λ x. HasCheck server cr.namespace cr.name x) (ap (λ p. p.1) h)
      (cr, rw (==_refl cr.namespace, ==_refl cr.name) refl)

server-create-keeps :
    (cr : CheckRun) (s : Server) (namespace name : String)
    → HasCheck server namespace name s
    → HasCheck server namespace name (server.create_check_run cr s).1
server-create-keeps cr s namespace name (old, h) = elim (Bool-cases (is_named namespace name cr)) [
  | inl same ↦ (cr, rw same refl)
  | inr other ↦ (old, rw other h)
]

server-IsServer : IsServer server
server-IsServer = record {
  create-found = server-create-found;
  create-keeps = server-create-keeps;
  status-keeps = λ suite s namespace name h. h;
  status-spec = λ suite suite' s t h. ground arith;
  owner-name = λ suite meta meta' h. ground arith;
}

abbrev git : {S : Type 0} → Git S
git = record {
  remove_all = λ path s. (none, s);
  make_dir = λ path s. (none, s);
  token = λ id host s. (ok "token", s);
  source = λ url user token. ok url;
  redacted = λ url user token. url;
  replace_all = λ text old new. text;
  run_git = λ dir args s. (none, s);
}

abbrev wanted : Origin
wanted = record {
  url = "https://github.com/leg100/etok";
  branch = "main";
  sha = "abc";
  owner = "leg100";
  name = "etok";
  install_id = 1;
}

abbrev machine : Machine Server
machine = record {
  manager = new_repo_manager "/repos";
  world = record { suite = suite; workspaces = workspace ∷ []; checks = [] };
}

abbrev cloned_repo : Repo
cloned_repo = record {
  url = "https://github.com/leg100/etok";
  branch = "main";
  sha = "abc";
  owner = "leg100";
  name = "etok";
  path = "/repos/abc";
  last_cloned = 100;
}

abbrev after_clone : Machine Server
after_clone = record machine {
  manager = record (machine.manager) { managed = ("abc", cloned_repo) ∷ [] };
}

-- The reaper ticks an hour after the clone.
clone-survives_example :
    (r : Repo) × (lookup "abc" (reap git 3700 after_clone).manager.managed ≡ some r)
    × (r.path ≡ "/repos/abc")
unfolding clone new_repo_manager reap lookup insert path_join
clone-survives_example =
    clone-survives git 100 wanted machine tt refl
      (Steps.next 3700 Steps.here (omega arith) (omega arith) (Step.reaped refl))

reconcile-IsChecked_example :
    All
      (λ ws.
        HasCheck server ws.namespace
          (check_run_name 1 0 ws.name)
          (reconcile server git 100 "suite" machine).1.world)
      (connected suite (workspace ∷ []))
unfolding reconcile connected clone lookup new_repo_manager each
reconcile-IsChecked_example =
    reconcile-IsChecked server server-IsServer git 100 "suite" suite (workspace ∷ []) machine refl
      refl refl

abbrev app : AppClient Server
app = record {
  get_check_suite = λ name s. Kube.Get.found s.suite;
  create_check_suite = λ suite s. (none, record s { suite = suite });
  update_check_suite = λ suite s. (none, record s { suite = suite });
  update_suite_status = λ suite s. (none, record s { suite = suite });
  get_check_run = λ namespace name s. find_check namespace name s.checks;
  update_check_run_status = λ cr s. (none, record s { checks = cr ∷ [] });
  retry_on_conflict = λ m. m;
  poll = λ test s. (ok tt, s);
  list_suites = λ owner repo ref s. ok [];
  get_pull = λ owner repo number s. ok "clean";
}

abbrev asked : String → RunEvent
asked action = record { id = 1; external_id = "dev/check"; requested_action = action }

abbrev stored : Server
stored = record { suite = suite; workspaces = []; checks = check_run ∷ [] }

handle_check_run_event-reaches_example :
    handle_check_run_event app (asked "apply") "requested_action" stored ≡ (
      ok (
          "added "
          <> ("requested_action"
              <> (" event to check run resource: " <> object_key "dev" "check"))),
      record stored { checks = add_event (event (some "apply")) check_run ∷ [] },
    )
unfolding event_of external_id has_char
handle_check_run_event-reaches_example =
    handle_check_run_event-reaches app (update_of (run_named "check-1" "sh") 65535) check_run
      (asked "apply") "requested_action" (event (some "apply")) stored
      (record stored { checks = add_event (event (some "apply")) check_run ∷ [] }) refl refl refl
      refl refl refl (λ m h. h)

event_of-effects_example :
    (current_iteration (add_event (record (event none) { completed = true }) check_run)
      ≡ current_iteration check_run)
    × (command (add_event (record (event none) { completed = true }) check_run) ≡ plan_cmd)
unfolding event_of
event_of-effects_example =
    event_of-effects (asked "apply") "completed" (record (event none) { completed = true })
      check_run refl
