-- ===== src/Install/Resources.antt =====
-- Resources as cmd/install/install.go and cmd/github/deployer.go decode, prepare and apply them.
-- Of an unstructured object the parts are kept that the code reads or writes.
use etok.Base.{
  String, Bool, not, ◌&&◌, ◌||◌, Option, none, some, List, [], ◌∷◌, ◌==◌, if◌then◌else◌,
}
use etok.Base.Dict.{Dict}
use etok.Labels.{Version, Label, set_label, set_common_labels}
use etok.Api.Meta.{ObjectMeta}
use etok.Kube
use etok.Kube.{Error, Get, Result}
use etok.Kube.Effect.{Done}
use etok.Kube.Pods.{EnvVar}

-- A container of a deployment; `none` for a field that is there and is no list.
pub record Template : Type 0 where
  pub image : String
  pub env : Option (List EnvVar)
  pub env_from : Option (List String)
  pub rest : String

-- `containers` is none where the path to the containers is missing or leads to no list. An entry
-- is none where it is no map. `rest` is everything else.
pub record Resource : Type 0 where
  pub kind : String
  pub metadata : ObjectMeta
  pub open metadata use *
  pub containers : Option (List (Option Template))
  pub rest : String

pub record InstallOptions : Type 0 where
  pub namespace : String
  pub image : String
  pub service_account_annotations : Dict String
  pub crds_only : Bool
  pub wait : Bool
  pub dry_run : Bool
  -- What the backup flags make of the parsed flags.
  pub backup_env : List EnvVar

pub data Attempt (A : Type 0) : Type 0 where
  got : A → Attempt A
  fails : Error → Attempt A
  panics : Attempt A

-- The manifests that are embedded, the decoder and encoder of YAML, and the client. Whether an
-- object is there is asked by its kind, namespace and name.
pub record Server (S : Type 0) : Type 0 where
  pub operator_resources : Result (List String)
  pub webhook_resources : Result (List String)
  pub decode : String → Result Resource
  pub marshal : Resource → Option String
  pub ensure_namespace : String → S → S
  pub get_secret : String → String → S → Get Done
  pub get : Resource → S → Get Done
  pub create : Resource → S → Option Error × S
  pub patch : Resource → S → Option Error × S

abbrev pub is_crd : Resource → Bool
is_crd r = r.kind == "CustomResourceDefinition"

unfoldable pub is_skipped : Bool → Resource → Bool
is_skipped crds_only r = crds_only && not (is_crd r)

abbrev pub is_cluster_scoped : Resource → Bool
is_cluster_scoped r = is_crd r || r.kind == "ClusterRoleBinding" || r.kind == "ClusterRole"

unfoldable pub namespaced : String → Resource → Resource
namespaced namespace r =
    if is_cluster_scoped r
    then r
    else record r { metadata = record (r.metadata) { namespace = namespace } }

unfoldable pub with_image : String → Template → Template
with_image image c = record c { image = image }

abbrev put_back : Resource → Option Template → Option Resource
put_back r none = none
put_back r (some c) = some (record r { containers = some (some c ∷ []) })

abbrev override_one :
    (Template → Option Template) → Resource → Option (List (Option Template)) → Option Resource
override_one f r (some (some c ∷ [])) = put_back r (f c)
override_one f r _ = none

-- A deployment has to have one container, which is changed; `none` is a panic.
unfoldable pub override_containers : (Template → Option Template) → Resource → Option Resource
override_containers f r = if r.kind == "Deployment" then override_one f r r.containers else some r

unfoldable pub annotated : Dict String → Resource → Resource
annotated annotations r =
    if r.kind == "ServiceAccount"
    then record r { metadata = record (r.metadata) { annotations = annotations } }
    else r

unfoldable pub labelled : Version → Label → Resource → Resource
labelled version component r = record r {
  metadata = set_label (set_common_labels version r.metadata) component;
}

-- A resource that is there is patched, and one that is not is created.
unfoldable pub apply_resource : {S : Type 0} → Server S → Resource → S → Option Error × S
apply_resource v r s = elim (v.get r s) [
  | Kube.Get.not_found ↦ v.create r s
  | Kube.Get.failed e ↦ (some e, s)
  | Kube.Get.found unit ↦ v.patch r s
]
