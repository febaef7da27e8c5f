-- ===== src/Tests/Data.antt =====
-- Test data: a workspace and its runs, the functions on conditions, and a cluster.
use etok.Base.{
  Bool, ap, ℕ, suc, String, true, false, ◌≡◌, ◌≢◌, refl, Option, none, some, List, [], ◌∷◌, ◌==◌,
  eq_iff, arith, if◌then◌else◌,
}
use etok.Labels.{Version}
use etok.Api.Meta.{
  Condition, condition_true, ConditionApi, IsDocumented, stamp, renew, has_status, is_true,
  is_false,
}
use etok.Api.Run.{Run, RunPhase}
use etok.Api.Workspace.{Workspace, WorkspacePhase}
use etok.Handlers.Verdict.{EventType, modified, deleted}
use etok.Kube
use etok.Kube.{Get, Result, ok, err, Secret, Claim, Object, Client, Error, ConfigMap}
use etok.Kube.Pods.{PodPhase, Pod, ContainerStatus}
use etok.RunPod.{named}

pub ne : (s t : String) → (s == t) ≡ false → s ≢ t
ne s t e p = ground (arith, (eq_iff s t).1 p)

abbrev set_loop : ℕ → List Condition → Condition → List Condition
set_loop now [] c = stamp now c ∷ []
set_loop now (d ∷ cs) c =
    let rest = set_loop now cs c in if d.type == c.type then renew now d c ∷ cs else d ∷ rest

abbrev find_loop : List Condition → String → Option Condition
find_loop [] t = none
find_loop (d ∷ cs) t = let rest = find_loop cs t in if d.type == t then some d else rest

abbrev pub api : ConditionApi
api = record {
  set_status_condition = set_loop;
  find_status_condition = find_loop;
  is_status_condition_true = λ cs t. has_status (find_loop cs t) is_true;
  is_status_condition_false = λ cs t. has_status (find_loop cs t) is_false;
}

pub api-IsDocumented : IsDocumented api
api-IsDocumented = record {
  set-nil = λ now c. refl;
  set-cons = λ now d cs c. refl;
  find-nil = λ t. refl;
  find-cons = λ d cs t. refl;
  is_true-find = λ cs t. refl;
  is_false-find = λ cs t. refl;
}

abbrev pub run_named : String → String → Run
run_named name command = record {
  metadata = named name "dev";
  spec = record {
    command = command;
    args = [];
    config_map = name;
    config_map_key = "config.tar.gz";
    workspace = "ws";
    verbosity = 0;
    attach_spec = record { handshake = false; handshake_timeout = "10s" };
  };
  run_status = record { phase = RunPhase.unset; conditions = []; exit_code = none };
}

abbrev pub finished : Condition
finished = record {
  type = "Complete";
  status = condition_true;
  reason = "PodSucceeded";
  message = "";
  last_transition_time = 5;
}

abbrev pub with_conditions : List Condition → Run → Run
with_conditions conditions run = record run {
  run_status = record (run.run_status) { conditions = conditions };
}

-- Approved: run b. Applying is privileged.
abbrev pub workspace : Workspace
workspace = record {
  metadata = record (named "ws" "dev") {
    annotations = ("approvals.etok.dev/b", "approved") ∷ ("note", "kept") ∷ [];
  };
  spec = record {
    cache = record { storage_class = none; size = "1Gi" };
    verbosity = 0;
    privileged_commands = "apply" ∷ [];
    terraform_version = "0.14.3";
    variables =
        record {
          key = "region";
          value = "eu";
          value_from = some "a secret";
          environment_variable = true;
        }
        ∷ [];
    ephemeral = false;
    vcs = record { repository = ""; branch = ""; working_dir = "" };
  };
  status = record {
    queue = "b" ∷ [];
    active = "a";
    phase = WorkspacePhase.unset;
    outputs = [];
    serial = none;
    backup_serial = none;
    conditions = [];
  };
}

abbrev pub runs : List Run
runs = run_named "b" "apply" ∷ run_named "c" "apply" ∷ run_named "a" "init" ∷ []

abbrev pub version : Version
version = record { version = "1"; commit = "abc" }

abbrev pub pod_in : PodPhase → List ContainerStatus → Pod
pod_in phase statuses = record {
  metadata = named "a" "dev";
  spec = record {
    affinity = [];
    containers = [];
    init_containers = [];
    restart_policy = "Never";
    service_account_name = "";
    volumes = [];
  };
  status = record { phase = phase; init_container_statuses = []; container_statuses = statuses };
}

abbrev pub secret : Secret
secret = record {
  metadata = named "tfstate-default-ws" "dev";
  resource_version = "7";
  content = ("tfstate", "state file") ∷ [];
}

-- A cluster that answers every read with what it holds, admits every write, and counts them.
pub record Cluster : Type 0 where
  pub run : Get Run
  pub workspace : Get Workspace
  pub pod : Get Pod
  pub writes : ℕ

abbrev write : Cluster → Cluster
write s = record s { writes = suc s.writes }

abbrev pub cluster : Client
cluster = record {
  State = Cluster;
  conditions = api;
  get_run = λ namespace name s. s.run;
  get_workspace = λ namespace name s. s.workspace;
  get_pod = λ namespace name s. s.pod;
  get_secret = λ namespace name s. Kube.Get.found secret;
  get_service_account = λ namespace name s. Kube.Get.found (named "etok" "dev");
  get_config_map =
      λ namespace name s. Kube.Get.found (record { metadata = named "ws" "dev"; content = [] });
  get_claim = λ namespace name s. Kube.Get.found (record {
    metadata = named "ws" "dev";
    access_modes = [];
    storage = "1Gi";
    storage_class_name = none;
    phase = Kube.claim_bound;
  });
  list_runs = λ namespace s. ok runs;
  create = λ object s. (none, write s);
  create_or_update = λ object s. (none, write s);
  update_run = λ run s. (ok run, write s);
  update_workspace = λ ws s. (ok ws, write s);
  update = λ object s. (none, write s);
  update_status = λ object s. (none, write s);
  set_owner_reference = λ object meta. ok meta;
  set_controller_reference = λ object meta. ok meta;
  parse_group_version = λ version. some version;
  gvk_version = λ object. "v1";
  gvk_kind = λ object. "Run";
}

abbrev pub cluster_with : Get Run → Get Workspace → Get Pod → Cluster
cluster_with run ws pod = record { run = run; workspace = ws; pod = pod; writes = 0 }

abbrev is_deletion : EventType → Bool
is_deletion deleted = true
is_deletion _ = false

pub modified-ne_deleted : modified ≢ deleted
modified-ne_deleted e = ground (arith, ap is_deletion e)
