-- ===== src/Kube/Pods.antt =====
-- The shapes of corev1.Pod and pkg/k8s/utils.go on container statuses.
use etok.Base.{ℕ, String, Bool, Option, none, some, List, [], ◌∷◌, ◌++◌, ◌==◌, if◌then◌else◌}
use etok.Base.Dict.{Dict}
use etok.Api.Meta.{ObjectMeta}

pub data PodPhase : Type 0 where
  pod_pending pod_running pod_succeeded pod_failed pod_unknown : PodPhase

pub record Terminated : Type 0 where
  pub exit_code : ℕ
  pub message : String

pub record ContainerState : Type 0 where
  pub running : Bool
  pub terminated : Option Terminated

pub record ContainerStatus : Type 0 where
  pub name : String
  pub state : ContainerState

pub record PodStatus : Type 0 where
  pub phase : PodPhase
  pub init_container_statuses : List ContainerStatus
  pub container_statuses : List ContainerStatus

pub record EnvVar : Type 0 where
  pub name : String
  pub value : String
  pub value_from : Option String

pub record VolumeMount : Type 0 where
  pub name : String
  pub mount_path : String
  pub sub_path : String

pub record Container : Type 0 where
  pub name : String
  pub image : String
  pub image_pull_policy : String
  pub command : List String
  pub args : List String
  pub env : List EnvVar
  pub env_from : List String
  pub stdin : Bool
  pub tty : Bool
  pub termination_message_policy : String
  pub volume_mounts : List VolumeMount
  pub working_dir : String

pub data VolumeSource : Type 0 where
  persistent_volume_claim : String → VolumeSource
  config_map : String → VolumeSource

pub record Volume : Type 0 where
  pub name : String
  pub source : VolumeSource

-- A required pod affinity term.
pub record AffinityTerm : Type 0 where
  pub match_labels : Dict String
  pub topology_key : String

pub record PodSpec : Type 0 where
  pub affinity : List AffinityTerm
  pub containers : List Container
  pub init_containers : List Container
  pub restart_policy : String
  pub service_account_name : String
  pub volumes : List Volume

pub record Pod : Type 0 where
  pub metadata : ObjectMeta
  pub open metadata use *
  pub spec : PodSpec
  pub status : PodStatus

status_loop : List ContainerStatus → String → Option ContainerStatus
status_loop [] name = none
status_loop (status ∷ statuses) name =
    let rest = status_loop statuses name in if status.name == name then some status else rest

unfoldable pub container_status_by_name : Pod → String → Option ContainerStatus
unfolding status_loop
container_status_by_name pod name =
    status_loop (pod.status.init_container_statuses ++ pod.status.container_statuses) name
