-- ===== src/Tests/Installs.antt =====
-- The installation of the operator, and the flags that it starts with.
use etok.Base.{String, true, false, ◌≡◌, refl, some, none, List, [], ◌∷◌, ◌==◌, if◌then◌else◌}
use etok.Kube
use etok.Kube.{Error, Result, ok, err}
use etok.Kube.Pods.{EnvVar}
use etok.RunPod.{named, env}
use etok.EnvVars.{Flag, flag_to_env_var_name, find_flag, get_env_vars, set_flags}
use etok.Install.Resources.{Resource, Template, Server, InstallOptions, with_image}
use etok.Install.{override_template, prepare, install}
use etok.Install.Laws.{Writes, IsInstalled, install-Writes}
use etok.Install.Applies.{apply_all, wanted, install-applies}
use etok.Install.Operator.{environment, operator-flags}
use etok.Tests.Data.{version}

abbrev container : Template
container = record {
  image = "leg100/etok:latest";
  env = some (env "OPERATOR_NAME" "etok" ∷ []);
  env_from = some [];
  rest = "";
}

abbrev resource : String → Resource
resource kind = record {
  kind = kind;
  metadata = named "etok" "";
  containers = if kind == "Deployment" then some (some container ∷ []) else none;
  rest = "";
}

-- A server that holds what is created, and decodes a manifest by its kind.
abbrev server : Server (List Resource)
server = record {
  operator_resources = ok ("ClusterRole" ∷ "Deployment" ∷ []);
  webhook_resources = ok [];
  decode = λ manifest. ok (resource manifest);
  marshal = λ r. some r.kind;
  ensure_namespace = λ namespace s. s;
  get_secret = λ namespace name s. Kube.Get.found tt;
  get = λ r s. Kube.Get.not_found;
  create = λ r s. (none, r ∷ s);
  patch = λ r s. (none, r ∷ s);
}

abbrev passed : List Flag
passed =
    record { name = "backup-provider"; value = "gcs" }
    ∷ record { name = "gcs-bucket"; value = "states" }
    ∷ []

-- The flags of the backup configuration, as they are visited.
abbrev names : List String
names = "backup-provider" ∷ "gcs-bucket" ∷ "s3-bucket" ∷ "s3-region" ∷ []

abbrev options : InstallOptions
options = record {
  namespace = "ops";
  image = "mirror/etok:1";
  service_account_annotations = [];
  crds_only = false;
  wait = false;
  dry_run = false;
  backup_env = get_env_vars names passed;
}

install-Writes_example :
    Writes server (IsInstalled options) [] (install server version options []).1
install-Writes_example =
    install-Writes server version options ("ClusterRole" ∷ "Deployment" ∷ []) [] refl

abbrev installed : List Resource
installed = (install server version options []).1

install-applies_example :
    apply_all server (wanted server version options true ("ClusterRole" ∷ "Deployment" ∷ [])) []
    ≡ (none, installed)
unfolding install prepare
install-applies_example =
    install-applies server version options ("ClusterRole" ∷ "Deployment" ∷ []) none [] installed
      refl refl refl

abbrev set : Flag → String → Flag
set f value = record f { value = value }

abbrev operator : List Flag
operator =
    record { name = "image"; value = "" }
    ∷ record { name = "gcs-bucket"; value = "" }
    ∷ record { name = "backup-provider"; value = "" }
    ∷ []

abbrev overridden : Template
overridden = record container {
  image = "mirror/etok:1";
  env = some (
      env "OPERATOR_NAME" "etok"
      ∷ env "ETOK_IMAGE" "mirror/etok:1"
      ∷ env "ETOK_BACKUP_PROVIDER" "gcs"
      ∷ env "ETOK_GCS_BUCKET" "states"
      ∷ []);
  env_from = some ("etok" ∷ []);
}

operator-flags_example :
    (vs : List EnvVar) × (overridden.env ≡ some vs)
    × (find_flag (set_flags set (environment [] vs) operator) "gcs-bucket"
        ≡ some (record { name = "gcs-bucket"; value = "states" }))
    × (find_flag (set_flags set (environment [] vs) operator) "image"
        ≡ some (record { name = "image"; value = "mirror/etok:1" }))
unfolding override_template with_image get_env_vars find_flag flag_to_env_var_name
operator-flags_example =
    operator-flags set options true container overridden (env "OPERATOR_NAME" "etok" ∷ []) names
      passed operator "gcs-bucket" (record { name = "gcs-bucket"; value = "states" })
      (record { name = "gcs-bucket"; value = "" }) (record { name = "image"; value = "" })
      (λ x v. refl) refl refl refl (refl, (refl, (refl, (refl, (refl, _))))) refl refl refl refl
