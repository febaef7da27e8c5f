-- ===== src/Tests/Launches.antt =====
-- A launch that fails, at a concrete cluster.
use etok.Base.{ap, sym, ◌≡◌, refl, String, true, false, none, some, []}
use etok.Api.Run.{Run}
use etok.Kube
use etok.Kube.{Error, Get, Result, ok, err, ConfigMap}
use etok.RunPod.{named}
use etok.WorkspaceCmd.{reached}
use etok.GitRepo.{not_opened, not_exists}
use etok.Launcher.{LauncherOptions, check_workspace}
use etok.Launcher.Launch.{Launchpad, LaunchFlags, attempt}
use etok.Launcher.Launch.Laws.{IsServer, IsCleaned, attempt-fails}
use etok.Tests.Data.{Cluster, cluster, cluster_with, version}

abbrev made : Run → Get Run → Result Run
made run Kube.Get.not_found = ok run
made run _ = err "already exists"

abbrev first_of : Run → Get Run → Get Run
first_of run Kube.Get.not_found = Kube.Get.found run
first_of run (Kube.Get.found old) = Kube.Get.found old
first_of run (Kube.Get.failed e) = Kube.Get.failed e

abbrev with_run : Get Run → Cluster → Cluster
with_run run s = record s { run = run }

abbrev pad : Launchpad Cluster
pad = record {
  files = record {
    make_dir = λ path s. (none, s);
    write_file = λ path content s. (none, s);
    read_file = λ path s. Kube.Get.not_found;
  };
  find_repo = λ path s. not_opened not_exists;
  create_client = λ s. ok tt;
  config_map =
      λ namespace name path root s. ok (record { metadata = named name namespace; content = [] });
  create_config_map = λ cm s. (none, s);
  create_run = λ run s. (made run s.run, with_run (first_of run s.run) s);
  delete_run = λ namespace name s. (none, with_run Kube.Get.not_found s);
  delete_config_map = λ namespace name s. (none, s);
  archive_first = true;
  wait_for_reconcile = λ run s. reached;
  watch_run = λ run s. none;
  finishing_order = λ errors. errors;
  connect = λ attach name s. none;
  exit = λ name s. some none;
  is_exit = λ e. false;
  get_lock_file = λ namespace name s. Kube.Get.not_found;
}

create-fails :
    (r : Run) (s t : Cluster) (g : Get Run) (e : Error)
    → ◌≡◌ {A = Result Run × Cluster} (made r g, with_run (first_of r g) s) (err e, t)
    → t.run ≡ g
create-fails r s t Kube.Get.not_found e h = cc
create-fails r s t (Kube.Get.found old) e h = ap (λ p. p.1.run) (sym h)
create-fails r s t (Kube.Get.failed f) e h = ap (λ p. p.1.run) (sym h)

create-new :
    (r r' : Run) (s t : Cluster) (g : Get Run)
    → ◌≡◌ {A = Result Run × Cluster} (made r g, with_run (first_of r g) s) (ok r', t)
    → g ≡ Kube.Get.not_found
create-new r r' s t Kube.Get.not_found h = refl
create-new r r' s t (Kube.Get.found old) h = cc
create-new r r' s t (Kube.Get.failed f) h = cc

abbrev view : String → String → Cluster → Get Run
view namespace name s = s.run

pad-IsServer : IsServer pad view
pad-IsServer = record {
  create_config_map-keeps = λ cm namespace name s. refl;
  delete_config_map-keeps = λ a b namespace name s. refl;
  create_run-fails = λ r namespace name s t e h. create-fails r s t s.run e h;
  create_run-new = λ r r' s t h. create-new r r' s t s.run h;
}

abbrev options : LauncherOptions
options = record {
  args = [];
  namespace = "dev";
  workspace = "ws";
  run_name = "a";
  command = "apply";
  verbosity = 1;
  attach = false;
  status = none;
  disable_resource_cleanup = false;
}

abbrev flags : LaunchFlags
flags = record { path = "/repo"; namespace_passed = false; workspace_passed = false }

abbrev empty : Cluster
empty = cluster_with Kube.Get.not_found Kube.Get.not_found Kube.Get.not_found

-- There is no workspace: the run that has been created is deleted again.
attempt-fails_example : IsCleaned pad view options empty empty
unfolding attempt check_workspace
attempt-fails_example =
    attempt-fails cluster (λ e. false) pad version view flags options "/repo" empty {t = empty}
      {e = "workspace not found: dev/ws"} pad-IsServer refl refl refl
