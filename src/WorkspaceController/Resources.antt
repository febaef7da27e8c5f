-- ===== src/WorkspaceController/Resources.antt =====
-- pkg/controllers/workspace_resources.go, workspace_controller_pod.go and
-- terraform_install_script.go: the objects of a workspace.
use etok.Base.{String, ◌<>◌, List, [], ◌∷◌, false}
use etok.Base.Text.{join}
use etok.Labels
use etok.Labels.{Version, set_label, set_common_labels}
use etok.Api.Meta.{ObjectMeta}
use etok.Api.Workspace.{Workspace, pvc_name, workspace_pod_name, workspace_builtins_config_map_name}
use etok.Kube.{ConfigMap, Claim, claim_other, Role, RoleBinding}
use etok.Kube.Pods.{Container, persistent_volume_claim, Pod}
use etok.RunPod.{variables_path, backend_path, bin_mount_path, bin_sub_path, named, no_status}

abbrev builtin_variables : String
builtin_variables = "\nvariable \"namespace\" {}\nvariable \"workspace\" {}\n"

abbrev builtin_config : String
builtin_config = "\nterraform {\n  backend \"kubernetes\" {}\n}\n"

-- The common labels and the workspace component.
unfoldable pub labelled : Version → ObjectMeta → ObjectMeta
labelled version meta = set_label (set_common_labels version meta) Labels.workspace_component

unfoldable pub new_builtins_for_ws : Version → Workspace → ConfigMap
unfolding labelled
new_builtins_for_ws version ws = record {
  metadata = labelled version (named (workspace_builtins_config_map_name ws.name) ws.namespace);
  content = (variables_path, builtin_variables) ∷ (backend_path, builtin_config) ∷ [];
}

-- The size is kept as its text.
unfoldable pub new_pvc_for_ws : Version → Workspace → Claim
unfolding labelled
new_pvc_for_ws version ws = record {
  metadata = labelled version (named ws.name ws.namespace);
  access_modes = "ReadWriteOnce" ∷ [];
  storage = ws.spec.cache.size;
  storage_class_name = ws.spec.cache.storage_class;
  phase = claim_other;
}

abbrev state_verbs : List String
state_verbs = "list" ∷ "create" ∷ "get" ∷ "delete" ∷ "patch" ∷ "update" ∷ []

unfoldable pub new_role_for_namespace : Version → Workspace → Role
unfolding labelled
new_role_for_namespace version ws = record {
  metadata = labelled version (named "etok" ws.namespace);
  rules =
      record { resources = "configmaps" ∷ []; verbs = "create" ∷ []; api_groups = "" ∷ [] }
      ∷ record { resources = "runs" ∷ []; verbs = "get" ∷ []; api_groups = "etok.dev" ∷ [] }
      ∷ record { resources = "secrets" ∷ []; verbs = state_verbs; api_groups = "" ∷ [] }
      ∷ record {
        resources = "leases" ∷ [];
        verbs = state_verbs;
        api_groups = "coordination.k8s.io" ∷ [];
      }
      ∷ [];
}

unfoldable pub new_role_binding_for_namespace : Version → Workspace → RoleBinding
unfolding labelled
new_role_binding_for_namespace version ws = record {
  metadata = labelled version (named "etok" ws.namespace);
  subjects = record { kind = "ServiceAccount"; name = "etok"; namespace = ws.namespace } ∷ [];
  role_ref = record { kind = "Role"; name = "etok"; api_group = "rbac.authorization.k8s.io" };
}

unfoldable pub new_service_account_for_namespace : Version → Workspace → ObjectMeta
unfolding labelled
new_service_account_for_namespace version ws = labelled version (named "etok" ws.namespace)

-- The template of the installation script with its two fields filled in.
unfoldable pub generate_script : Workspace → String
generate_script ws =
    let version = ws.spec.terraform_version in
    let archive = "terraform_" <> (version <> "_linux_amd64.zip") in
    let sums = "terraform_" <> (version <> "_SHA256SUMS") in
    let release = "curl -LOf# https://releases.hashicorp.com/terraform/" <> (version <> "/") in
    join
      ("set -eo pipefail"
        ∷ ""
        ∷ ("echo Requested terraform version is " <> version)
        ∷ ""
        ∷ "current_version=$(terraform version -json | jq '.terraform_version' -r)"
        ∷ "echo Current terraform version is $current_version"
        ∷ ""
        ∷ ("if [[ " <> (version <> " == $current_version ]]; then"))
        ∷ "  echo Skipping terraform installation"
        ∷ "  exit 0"
        ∷ "fi"
        ∷ ""
        ∷ "echo"
        ∷ ("echo Downloading terraform " <> (version <> "..."))
        ∷ (release <> archive)
        ∷ "echo"
        ∷ ("echo Downloading terraform " <> (version <> " checksum..."))
        ∷ (release <> sums)
        ∷ ""
        ∷ "echo"
        ∷ "echo Checking checksum..."
        ∷ ("sed -n '/" <> (archive <> ("/p' " <> (sums <> " | sha256sum -c"))))
        ∷ ""
        ∷ "echo"
        ∷ ("echo Extracting terraform " <> (version <> "..."))
        ∷ ("mkdir -p " <> bin_mount_path)
        ∷ ("unzip " <> (archive <> (" -d " <> bin_mount_path)))
        ∷ ("rm " <> archive)
        ∷ ("rm " <> sums)
        ∷ [])
      "\n"

abbrev idler_command : String
idler_command = "trap \"exit 0\" SIGTERM; while true; do sleep 1; done"

abbrev shell : String → String → String → Container
shell name image script = record {
  name = name;
  image = image;
  image_pull_policy = "IfNotPresent";
  command = "sh" ∷ "-c" ∷ script ∷ [];
  args = [];
  env = [];
  env_from = [];
  stdin = false;
  tty = false;
  termination_message_policy = "FallbackToLogsOnError";
  volume_mounts = [];
  working_dir = "";
}

unfoldable pub workspace_pod : Version → Workspace → String → Pod
unfolding generate_script
workspace_pod version ws image = record {
  metadata =
      set_label
        (set_label (set_common_labels version (named (workspace_pod_name ws.name) ws.namespace))
          (Labels.workspace ws.name))
        Labels.workspace_component;
  spec = record {
    affinity = [];
    containers = shell "idler" image idler_command ∷ [];
    init_containers =
        record (shell "installer" image (generate_script ws)) {
          volume_mounts =
              record { name = "cache"; mount_path = bin_mount_path; sub_path = bin_sub_path } ∷ [];
        }
        ∷ [];
    restart_policy = "Always";
    service_account_name = "";
    volumes = record { name = "cache"; source = persistent_volume_claim (pvc_name ws) } ∷ [];
  };
  status = no_status;
}
