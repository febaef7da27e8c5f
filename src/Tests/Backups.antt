-- ===== src/Tests/Backups.antt =====
-- The backup providers, at concrete storage services.
use etok.Base.{
  ◌≢◌, Bool, true, false, ◌&&◌, ◌==◌, eq_iff, arith, List, [], ◌∷◌, ap, sym, ◌∙◌, ◌≡◌, refl, String,
  Option, none, some,
}
use etok.Kube
use etok.Kube.{Get, Result, ok, err, Secret}
use etok.Kube.Effect.{Done}
use etok.RunPod.{named}
use etok.Backup.{Yaml, Gcs, S3, gcs_provider, s3_provider}
use etok.Backup.Laws.{IsBackup, IsYaml, IsGcs, IsS3, providers-IsBackup}

abbrev state : Secret
state = record { metadata = named "tfstate" "dev"; resource_version = "1"; content = [] }

abbrev is_nil {ℓ} : {A : Type ℓ} → List A → Bool
is_nil [] = true
is_nil (x ∷ xs) = false

is_nil-eq {ℓ} : {A : Type ℓ} (xs : List A) → is_nil xs ≡ true → xs ≡ []
is_nil-eq [] h = refl
is_nil-eq (x ∷ xs) h = cc

abbrev is_none {ℓ} : {A : Type ℓ} → Option A → Bool
is_none none = true
is_none (some a) = false

is_none-eq {ℓ} : {A : Type ℓ} (x : Option A) → is_none x ≡ true → x ≡ none
is_none-eq none h = refl
is_none-eq (some a) h = cc

abbrev is_state : Secret → Bool
is_state x =
    (x.name == "tfstate" && (x.namespace == "dev" && (x.uid == "" && x.resource_version == "1")))
    && ((is_nil x.labels && (is_nil x.annotations && is_nil x.content))
        && (is_nil x.owner_references && (is_nil x.finalizers && is_none x.deletion_timestamp)))

is_state-eq : (x : Secret) → is_state x ≡ true → state ≡ x
is_state-eq x h =
    let n : x.name ≡ "tfstate" = ground (arith, eq_iff x.name "tfstate") in
    let ns : x.namespace ≡ "dev" = ground (arith, eq_iff x.namespace "dev") in
    let u : x.uid ≡ "" = ground (arith, eq_iff x.uid "") in
    let v : x.resource_version ≡ "1" = ground (arith, eq_iff x.resource_version "1") in
    let l = is_nil-eq x.labels (ground arith) in
    let a = is_nil-eq x.annotations (ground arith) in
    let c = is_nil-eq x.content (ground arith) in
    let o = is_nil-eq x.owner_references (ground arith) in
    let f = is_nil-eq x.finalizers (ground arith) in
    let d = is_none-eq x.deletion_timestamp (ground arith) in cc

-- A YAML that knows one secret.
abbrev marshal_if : Bool → Result String
marshal_if true = ok "state"
marshal_if false = err "unknown"

abbrev yaml : Yaml
yaml = record { marshal = λ x. marshal_if (is_state x); unmarshal = λ content. ok state }

abbrev secret_or : Result Secret → Secret
secret_or (ok x) = x
secret_or (err e) = state

yaml-IsYaml : IsYaml yaml
yaml-IsYaml secret r content made back = ap secret_or (sym back) ∙ go (is_state secret) refl made
  where
    go : (b : Bool) → is_state secret ≡ b → marshal_if b ≡ ok content → state ≡ secret
    go true e h = is_state-eq secret e
    go false e h = cc

-- A bucket with one object: what is staged in a writer, and what is stored.
record Bucket : Type 0 where
  staged : String
  stored : Option String

abbrev attrs : Option String → Get Done
attrs none = Kube.Get.not_found
attrs (some content) = Kube.Get.found tt

abbrev content_of : Option String → Result String
content_of none = err "no object"
content_of (some content) = ok content

abbrev object : Option String → Get (Result String)
object none = Kube.Get.not_found
object (some content) = Kube.Get.found (ok content)

abbrev gcs : Gcs Bucket
gcs = record {
  new_client = λ s. ok tt;
  bucket_attrs = λ bucket s. Kube.Get.found tt;
  object_attrs = λ bucket p s. attrs s.stored;
  read = λ bucket p s. content_of s.stored;
  close_reader = λ bucket p s. ok tt;
  copy = λ bucket p content s. (none, record s { staged = content });
  close = λ bucket p s. (none, record s { stored = some s.staged });
}

abbrev s3 : S3 Bucket
s3 = record {
  new_session = λ s. ok tt;
  get_bucket_acl = λ bucket s. Kube.Get.found tt;
  put_object = λ bucket p content s. (none, record s { stored = some content });
  get_object = λ bucket p s. object s.stored;
}

abbrev text_of : Result String → String
text_of (ok x) = x
text_of (err e) = ""

gcs-IsGcs : IsGcs gcs
gcs-IsGcs = record {
  close-there = λ bucket p content s u t copied closed missing.
      absurd (found_there (ap (λ x. attrs (x.1.stored)) closed ∙ missing));
  close-read = λ bucket p content found s u t copied closed read.
      ap text_of (sym read)
      ∙ (ap (λ x. text_of (content_of (x.1.stored))) (sym closed)
          ∙ ap (λ x. x.1.staged) (sym copied));
}
  where
    found_there : {unit : Done} → Kube.Get.found unit ≢ Kube.Get.not_found
    found_there h = cc

s3-IsS3 : IsS3 s3
s3-IsS3 = record {
  put-there = λ bucket p content s t put missing.
      absurd (found_there (ap (λ x. object (x.1.stored)) put ∙ missing));
  put-read = λ bucket p content found s t put read.
      ap object_text (sym read) ∙ ap (λ x. object_text (object (x.1.stored))) (sym put);
}
  where
    found_there : {x : Result String} → Kube.Get.found x ≢ Kube.Get.not_found
    found_there h = cc

    object_text : Get (Result String) → String
    object_text (Kube.Get.found x) = text_of x
    object_text _ = ""

providers-IsBackup_example :
    IsBackup (gcs_provider yaml gcs "bucket") × IsBackup (s3_provider yaml s3 "bucket")
providers-IsBackup_example = providers-IsBackup yaml gcs s3 "bucket" yaml-IsYaml gcs-IsGcs s3-IsS3
