-- ===== src/Backup.antt =====
-- pkg/backup: the providers that keep the state files in buckets, and the configuration of
-- cmd/backup that chooses one. The storage services and YAML are parameters.
pub mod Config
pub mod Laws
use etok.Base.{String, ◌<>◌, Bool, Option, none, some, List, [], ◌∷◌, ◌==◌, if◌then◌else◌}
use etok.Base.Dict.{Dict, lookup}
use etok.Base.Text.{join}
use etok.Kube
use etok.Kube.{Error, Get, Result, ok, err, Secret}
use etok.Kube.Effect.{Effect, Done, lift, call, checked, pure, raise, ◌>>=◌, ◌>>◌}
use etok.WorkspaceController.State.{Provider}

unfoldable pub path : String → String → String
path namespace name = namespace <> ("/" <> (name <> ".yaml"))

pub record Yaml : Type 0 where
  pub marshal : Secret → Result String
  pub unmarshal : String → Result Secret

-- Google's storage: an object is there once its writer is closed.
pub record Gcs (S : Type 0) : Type 0 where
  pub new_client : S → Result Done
  pub bucket_attrs : String → S → Get Done
  pub object_attrs : String → String → S → Get Done
  pub read : String → String → S → Result String
  pub close_reader : String → String → S → Result Done
  pub copy : String → String → String → S → Option Error × S
  pub close : String → String → S → Option Error × S

-- Amazon's storage. The code for a bucket or a key that is missing is told apart.
pub record S3 (S : Type 0) : Type 0 where
  pub new_session : S → Result Done
  pub get_bucket_acl : String → S → Get Done
  pub put_object : String → String → String → S → Option Error × S
  pub get_object : String → String → S → Get (Result String)

-- A bucket has to be there.
abbrev bucket_found : String → Get Done → Result Done
bucket_found bucket (Kube.Get.found unit) = ok tt
bucket_found bucket Kube.Get.not_found = err ("backup bucket could not be found: " <> bucket)
bucket_found bucket (Kube.Get.failed e) = err e

abbrev pub any_error : Get Done → Result Done
any_error (Kube.Get.found unit) = ok tt
any_error Kube.Get.not_found = err "storage: bucket doesn't exist"
any_error (Kube.Get.failed e) = err e

abbrev pub decoded : Yaml → Result String → Result (Option Secret)
decoded y (err e) = err e
decoded y (ok content) = elim (y.unmarshal content) [ err e ↦ err e | ok secret ↦ ok (some secret) ]

-- The reader is closed last.
abbrev pub unless_open : Result (Option Secret) → Result Done → Result (Option Secret)
unless_open (err e) closed = err e
unless_open (ok found) (err e) = err e
unless_open (ok found) (ok unit) = ok found

module _ {S : Type 0} (g : Gcs S) (y : Yaml) (bucket : String) where
  unfoldable pub gcs_backup : Secret → Effect S Done
  unfolding path
  gcs_backup secret = do
    checked (λ s. any_error (g.bucket_attrs bucket s))
    content ← lift (y.marshal secret)
    call (g.copy bucket (path secret.namespace secret.name) content)
    call (g.close bucket (path secret.namespace secret.name))

  abbrev pub with_object : String → S → Get Done → Result (Option Secret)
  with_object p s Kube.Get.not_found = ok none
  with_object p s (Kube.Get.failed e) = err e
  with_object p s (Kube.Get.found unit) =
      unless_open (decoded y (g.read bucket p s)) (g.close_reader bucket p s)

  abbrev pub with_bucket : String → S → Get Done → Result (Option Secret)
  with_bucket p s Kube.Get.not_found = err "storage: bucket doesn't exist"
  with_bucket p s (Kube.Get.failed e) = err e
  with_bucket p s (Kube.Get.found unit) = with_object p s (g.object_attrs bucket p s)

  unfoldable pub gcs_restore : String → String → S → Result (Option Secret)
  unfolding path
  gcs_restore namespace name s = with_bucket (path namespace name) s (g.bucket_attrs bucket s)

module _ {S : Type 0} (g : S3 S) (y : Yaml) (bucket : String) where
  unfoldable pub s3_backup : Secret → Effect S Done
  unfolding path
  s3_backup secret = do
    content ← lift (y.marshal secret)
    call (g.put_object bucket (path secret.namespace secret.name) content)

  abbrev pub with_response : Get (Result String) → Result (Option Secret)
  with_response Kube.Get.not_found = ok none
  with_response (Kube.Get.failed e) = err e
  with_response (Kube.Get.found content) = decoded y content

  unfoldable pub s3_restore : String → String → S → Result (Option Secret)
  unfolding path
  s3_restore namespace name s = with_response (g.get_object bucket (path namespace name) s)

abbrev pub failure : {S : Type 0} → Result Done × S → Option Error × S
failure (ok unit, s) = (none, s)
failure (err e, s) = (some e, s)

module _ {S : Type 0} (y : Yaml) where
  unfoldable pub gcs_provider : Gcs S → String → Provider S
  unfolding gcs_backup gcs_restore
  gcs_provider g bucket = record {
    backup = λ secret s. failure (gcs_backup g y bucket secret s);
    restore = λ namespace name s. (gcs_restore g y bucket namespace name s, s);
  }

  unfoldable pub new_gcs_provider : Gcs S → String → S → Result (Provider S)
  unfolding gcs_provider
  new_gcs_provider g bucket s = elim (g.new_client s) [
    | err e ↦ err e
    | ok unit ↦ elim (bucket_found bucket (g.bucket_attrs bucket s)) [
      | err e ↦ err e
      | ok unit ↦ ok (gcs_provider g bucket)
    ]
  ]

  unfoldable pub s3_provider : S3 S → String → Provider S
  unfolding s3_backup s3_restore
  s3_provider g bucket = record {
    backup = λ secret s. failure (s3_backup g y bucket secret s);
    restore = λ namespace name s. (s3_restore g y bucket namespace name s, s);
  }

  unfoldable pub new_s3_provider : S3 S → String → S → Result (Provider S)
  unfolding s3_provider
  new_s3_provider g bucket s = elim (g.new_session s) [
    | err e ↦ err e
    | ok unit ↦ elim (bucket_found bucket (g.get_bucket_acl bucket s)) [
      | err e ↦ err e
      | ok unit ↦ ok (s3_provider g bucket)
    ]
  ]
