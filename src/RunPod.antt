-- ===== src/RunPod.antt =====
-- pkg/controllers/run_controller_pod.go and paths.go: the pod that runs a command.
pub mod Laws
use etok.Base.{
  ℕ, String, ◌<>◌, Bool, true, false, Option, none, some, List, [], ◌∷◌, ◌++◌, map, if◌then◌else◌,
}
use etok.Base.FilePath.{path_join, format_bool, itoa}
use etok.Labels
use etok.Labels.{Version, make_labels, set_label, set_common_labels}
use etok.Api.Meta.{ObjectMeta}
use etok.Api.Run.{Run, pod_name}
use etok.Api.Workspace.{Workspace, Variable, pvc_name, workspace_builtins_config_map_name}
use etok.Kube.Pods.{
  EnvVar, VolumeMount, Container, Volume, persistent_volume_claim, config_map, PodSpec, PodStatus,
  pod_unknown, Pod,
}

abbrev pub bin_mount_path : String
bin_mount_path = "/terraform-bins"

abbrev pub bin_sub_path : String
bin_sub_path = "terraform-bins/"

abbrev pub plugin_mount_path : String
plugin_mount_path = "/plugin-cache"

abbrev plugin_sub_path : String
plugin_sub_path = "plugin-cache/"

abbrev pub plans_mount_path : String
plans_mount_path = "/plans"

abbrev plans_sub_path : String
plans_sub_path = "plans/"

abbrev dot_terraform_sub_path : String
dot_terraform_sub_path = ".terraform/"

abbrev pub workspace_dir : String
workspace_dir = "/workspace"

abbrev pub variables_path : String
variables_path = "_etok_variables.tf"

abbrev pub backend_path : String
backend_path = "_etok_backend.tf"

abbrev pub runner_container_name : String
runner_container_name = "runner"

abbrev pub env : String → String → EnvVar
env name value = record { name = name; value = value; value_from = none }

abbrev mount : String → String → String → VolumeMount
mount name mount_path sub_path = record {
  name = name;
  mount_path = mount_path;
  sub_path = sub_path;
}

unfoldable pub builtin_env : Run → Workspace → List EnvVar
builtin_env run ws =
    env "ETOK_HANDSHAKE" (format_bool run.handshake)
    ∷ env "ETOK_HANDSHAKE_TIMEOUT" run.handshake_timeout
    ∷ env "ETOK_COMMAND" run.command
    ∷ env "ETOK_NAMESPACE" ws.namespace
    ∷ env "ETOK_WORKSPACE" ws.name
    ∷ env "ETOK_DEST" workspace_dir
    ∷ env "ETOK_TARBALL" (path_join ("/tarball" ∷ run.config_map_key ∷ []))
    ∷ env "ETOK_V" (itoa run.verbosity)
    ∷ env "TF_PLUGIN_CACHE_DIR" plugin_mount_path
    ∷ env "KUBE_IN_CLUSTER_CONFIG" "true"
    ∷ env "KUBE_NAMESPACE" ws.namespace
    ∷ env "TF_CLI_ARGS_init" ("-backend-config=secret_suffix=" <> ws.name)
    ∷ env "ETOK_RUN_NAME" run.name
    ∷ env "TF_VAR_namespace" ws.namespace
    ∷ env "TF_VAR_workspace" ws.name
    ∷ []

unfoldable pub run_mounts : Run → Workspace → List VolumeMount
run_mounts run ws =
    let in_working_dir =
      λ (file : String). path_join (workspace_dir ∷ ws.spec.vcs.working_dir ∷ file ∷ []) in
    mount "cache" plugin_mount_path plugin_sub_path
    ∷ mount "cache" bin_mount_path bin_sub_path
    ∷ mount "cache" plans_mount_path plans_sub_path
    ∷ mount "cache" (in_working_dir ".terraform") dot_terraform_sub_path
    ∷ mount "tarball" (path_join ("/tarball" ∷ run.config_map_key ∷ [])) run.config_map_key
    ∷ mount "builtins" (in_working_dir variables_path) variables_path
    ∷ mount "builtins" (in_working_dir backend_path) backend_path
    ∷ []

-- The loop over the variables. The code tests `ev.ValueFrom`, the field of the new variable, which
-- is nil there.
unfoldable pub var_env : Variable → EnvVar
var_env v =
    let ev : EnvVar = env (if v.environment_variable then v.key else "TF_VAR_" <> v.key) "" in
    elim (ev.value_from) [
      | some _ ↦ record ev { value_from = v.value_from }
      | none ↦ record ev { value = v.value }
    ]

unfoldable pub run_container : Run → Workspace → Bool → String → Container
unfolding builtin_env run_mounts var_env
run_container run ws secret_found image = record {
  name = runner_container_name;
  image = image;
  image_pull_policy = "IfNotPresent";
  command = "etok" ∷ "runner" ∷ [];
  args = "--" ∷ run.args;
  env = builtin_env run ws ++ map var_env ws.spec.variables;
  env_from = if secret_found then "etok" ∷ [] else [];
  stdin = run.handshake;
  tty = run.handshake;
  termination_message_policy = "FallbackToLogsOnError";
  volume_mounts = run_mounts run ws;
  working_dir = path_join (workspace_dir ∷ ws.spec.vcs.working_dir ∷ []);
}

unfoldable pub run_volumes : Run → Workspace → List Volume
run_volumes run ws =
    record { name = "cache"; source = persistent_volume_claim (pvc_name ws) }
    ∷ record { name = "tarball"; source = config_map run.config_map }
    ∷ record { name = "builtins"; source = config_map (workspace_builtins_config_map_name ws.name) }
    ∷ []

abbrev pub named : String → String → ObjectMeta
named name namespace = record {
  name = name;
  namespace = namespace;
  uid = "";
  labels = [];
  annotations = [];
  owner_references = [];
  finalizers = [];
  deletion_timestamp = none;
}

-- A pod that no node has seen has no status.
abbrev pub no_status : PodStatus
no_status = record { phase = pod_unknown; init_container_statuses = []; container_statuses = [] }

unfoldable pub run_pod : Version → Run → Workspace → Bool → Bool → String → Pod
unfolding run_container run_volumes
run_pod version run ws secret_found service_account_found image = record {
  metadata =
      set_label
        (set_label
          (set_label (set_common_labels version (named (pod_name run) run.namespace))
            (Labels.workspace ws.name))
          Labels.run_component)
        (Labels.command run.command);
  spec = record {
    affinity =
        record {
          match_labels = make_labels (Labels.workspace_component ∷ Labels.workspace ws.name ∷ []);
          topology_key = "kubernetes.io/hostname";
        }
        ∷ [];
    containers = run_container run ws secret_found image ∷ [];
    init_containers = [];
    restart_policy = "Never";
    service_account_name = if service_account_found then "etok" else "";
    volumes = run_volumes run ws;
  };
  status = no_status;
}
