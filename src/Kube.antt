-- ===== src/Kube.antt =====
-- The Kubernetes API as the program sees it, which is not part of the repository: the shapes of
-- the objects that it reads and writes, and a client with an unknown state behind it.
pub mod Pods
pub mod Effect
use etok.Base.{ℕ, String, Bool, Option, List}
use etok.Base.Dict.{Dict}
use etok.Api.Meta.{ObjectMeta, ConditionApi}
use etok.Api.Run.{Run}
use etok.Api.Workspace.{Workspace}
use etok.Kube.Pods.{Pod}

-- An error is its text.
abbrev pub Error : Type 0
Error = String

-- A read: the object, a not-found error, or another error.
pub data Get (A : Type 0) : Type 0 where
  found : A → Get A
  not_found : Get A
  failed : Error → Get A

pub data Result (A : Type 0) : Type 0 where
  ok : A → Result A
  err : Error → Result A

pub record Secret : Type 0 where
  pub metadata : ObjectMeta
  pub open metadata use *
  pub resource_version : String
  -- The values under a key are named, not spelled out.
  pub content : Dict String

pub record ConfigMap : Type 0 where
  pub metadata : ObjectMeta
  pub open metadata use *
  pub content : Dict String

pub data ClaimPhase : Type 0 where
  claim_pending claim_bound claim_lost claim_other : ClaimPhase

pub record Claim : Type 0 where
  pub metadata : ObjectMeta
  pub open metadata use *
  pub access_modes : List String
  pub storage : String
  pub storage_class_name : Option String
  pub phase : ClaimPhase

pub record PolicyRule : Type 0 where
  pub resources : List String
  pub verbs : List String
  pub api_groups : List String

pub record Role : Type 0 where
  pub metadata : ObjectMeta
  pub open metadata use *
  pub rules : List PolicyRule

pub record Subject : Type 0 where
  pub kind : String
  pub name : String
  pub namespace : String

pub record RoleRef : Type 0 where
  pub kind : String
  pub name : String
  pub api_group : String

pub record RoleBinding : Type 0 where
  pub metadata : ObjectMeta
  pub open metadata use *
  pub subjects : List Subject
  pub role_ref : RoleRef

pub data Object : Type 0 where
  run_object : Run → Object
  workspace_object : Workspace → Object
  pod_object : Pod → Object
  secret_object : Secret → Object
  config_map_object : ConfigMap → Object
  claim_object : Claim → Object
  service_account_object : ObjectMeta → Object
  role_object : Role → Object
  role_binding_object : RoleBinding → Object

-- The controller-runtime client, controllerutil and the parser of group versions. Reads do not
-- change the state; a write may, whether or not it fails.
pub record Client : Type 1 where
  pub State : Type 0
  pub conditions : ConditionApi
  pub get_run : String → String → State → Get Run
  pub get_workspace : String → String → State → Get Workspace
  pub get_pod : String → String → State → Get Pod
  pub get_secret : String → String → State → Get Secret
  pub get_service_account : String → String → State → Get ObjectMeta
  pub get_config_map : String → String → State → Get ConfigMap
  pub get_claim : String → String → State → Get Claim
  pub list_runs : String → State → Result (List Run)
  pub create : Object → State → Option Error × State
  pub create_or_update : Object → State → Option Error × State
  pub update_run : Run → State → Result Run × State
  pub update_workspace : Workspace → State → Result Workspace × State
  pub update : Object → State → Option Error × State
  pub update_status : Object → State → Option Error × State
  pub set_owner_reference : Object → ObjectMeta → Result ObjectMeta
  pub set_controller_reference : Object → ObjectMeta → Result ObjectMeta
  -- The group of an API version; `none` if it cannot be parsed.
  pub parse_group_version : String → Option String
  -- The version and the kind in the type metadata of an object.
  pub gvk_version : Object → String
  pub gvk_kind : Object → String
