-- ===== src/Backup/Laws.antt =====
-- What a provider has backed up is what it restores.
use etok.Base.{ap, sym, ◌∙◌, ◌≡◌, ◌≢◌, refl, String, Option, none, some}
use etok.Kube
use etok.Kube.{Error, Get, Result, ok, err, Secret}
use etok.Kube.Effect.{Done, call, >>=-eq-ok, lift-eq-ok, call-eq-ok}
use etok.WorkspaceController.State.{Provider}
use etok.Backup.{
  any_error, path, Yaml, Gcs, S3, decoded, unless_open, gcs_backup, with_object, gcs_restore,
  s3_backup, with_response, s3_restore, failure, gcs_provider, s3_provider,
}

-- The contract of a provider: a restore after a backup answers the secret, or an error.
abbrev pub IsBackup : {S : Type 0} → Provider S → Type 0
IsBackup {S} p =
    (secret : Secret) (s t : S) (r : Option Secret)
    → p.backup secret s ≡ (none, t)
    → (p.restore secret.namespace secret.name t).0 ≡ ok r
    → r ≡ some secret

-- What YAML promises of a secret.
abbrev pub IsYaml : Yaml → Type 0
IsYaml y =
    (secret r : Secret) (content : String)
    → y.marshal secret ≡ ok content
    → y.unmarshal content ≡ ok r
    → r ≡ secret

-- Google's storage: an object that is written and closed is there, with what was written.
pub record IsGcs {S : Type 0} (g : Gcs S) : Type 0 where
  pub close-there :
      (bucket p content : String) (s u t : S)
      → g.copy bucket p content s ≡ (none, u)
      → g.close bucket p u ≡ (none, t)
      → g.object_attrs bucket p t ≢ Kube.Get.not_found
  pub close-read :
      (bucket p content found : String) (s u t : S)
      → g.copy bucket p content s ≡ (none, u)
      → g.close bucket p u ≡ (none, t)
      → g.read bucket p t ≡ ok found
      → found ≡ content

-- Amazon's storage: an object that is put is there, with what was put.
pub record IsS3 {S : Type 0} (g : S3 S) : Type 0 where
  pub put-there :
      (bucket p content : String) (s t : S)
      → g.put_object bucket p content s ≡ (none, t)
      → g.get_object bucket p t ≢ Kube.Get.not_found
  pub put-read :
      (bucket p content found : String) (s t : S)
      → g.put_object bucket p content s ≡ (none, t)
      → g.get_object bucket p t ≡ Kube.Get.found (ok found)
      → found ≡ content

decoded-eq-ok :
    (y : Yaml) (x : Result String) {r : Option Secret}
    → decoded y x ≡ ok r
    → (content : String) × (secret : Secret) × (x ≡ ok content)
      × (y.unmarshal content ≡ ok secret)
      × (r ≡ some secret)
decoded-eq-ok y (err e) h = cc
decoded-eq-ok y (ok content) {r} h = go (y.unmarshal content) refl h
  where
    go :
        (x : Result Secret)
        → y.unmarshal content ≡ x
        → elim x as (λ _. Result (Option Secret)) [ err e ↦ err e | ok secret ↦ ok (some secret) ]
          ≡ ok r
        → (c : String) × (secret : Secret) × (◌≡◌ {A = Result String} (ok content) (ok c))
          × (y.unmarshal c ≡ ok secret)
          × (r ≡ some secret)
    go (err e) e1 h = cc
    go (ok secret) e1 h = (content, secret, refl, e1, cc)

unless_open-eq-ok :
    (x : Result (Option Secret)) (closed : Result Done) {r : Option Secret}
    → unless_open x closed ≡ ok r
    → x ≡ ok r
unless_open-eq-ok (err e) closed h = cc
unless_open-eq-ok (ok found) (err e) h = cc
unless_open-eq-ok (ok found) (ok unit) h = h

failure-eq-none :
    {S : Type 0} (x : Result Done × S) {t : S} → failure x ≡ (none, t) → x ≡ (ok tt, t)
failure-eq-none (ok unit, s) h = ap (λ p. (ok tt, p.1)) h
failure-eq-none (err e, s) h = cc

-- A content that is read as it was written is the secret.
same_secret :
    (y : Yaml) (secret : Secret) (content : String) (x : Result String) {r : Option Secret}
    → IsYaml y
    → y.marshal secret ≡ ok content
    → ((found : String) → x ≡ ok found → found ≡ content)
    → decoded y x ≡ ok r
    → r ≡ some secret
same_secret y secret content x yaml made kept h =
    let (found, back, read, decodes, all) = decoded-eq-ok y x h in
    all
    ∙ ap (λ x. some x)
        (yaml secret back content made (ap y.unmarshal (sym (kept found read)) ∙ decodes))

module _ {S : Type 0} (y : Yaml) (yaml : IsYaml y) where
  gcs_provider-IsBackup :
      (g : Gcs S) (bucket : String) → IsGcs g → IsBackup (gcs_provider y g bucket)
  unfolding gcs_provider gcs_backup gcs_restore
  gcs_provider-IsBackup g bucket i secret s t r backed restored =
      let h = failure-eq-none (gcs_backup g y bucket secret s) backed in
      let (_, _, h1) = lift-eq-ok (any_error (g.bucket_attrs bucket s)) _ s h in
      let (content, made, h2) = lift-eq-ok (y.marshal secret) _ s h1 in
      let p = path secret.namespace secret.name in
      let (_, u, copied, h3) = >>=-eq-ok (call (g.copy bucket p content)) _ s h2 in
      let copies = call-eq-ok (g.copy bucket p content s) s copied in
      let closes = call-eq-ok (g.close bucket p u) u h3 in
      there p (g.bucket_attrs bucket t) (g.object_attrs bucket p t)
        (i.close-there bucket p content s u t copies closes) restored
        (λ x.
          same_secret y secret content (g.read bucket p t) yaml made
            (λ found. i.close-read bucket p content found s u t copies closes) x)
    where
      there :
          (p : String) (b o : Get Done)
          → o ≢ Kube.Get.not_found
          → (elim b as (λ _. Result (Option Secret)) [
            | Kube.Get.not_found ↦ err "storage: bucket doesn't exist"
            | Kube.Get.failed e ↦ err e
            | Kube.Get.found unit ↦ with_object g y bucket p t o
          ])
            ≡ ok r
          → (decoded y (g.read bucket p t) ≡ ok r → r ≡ some secret)
          → r ≡ some secret
      there p Kube.Get.not_found o exists h next = cc
      there p (Kube.Get.failed e) o exists h next = cc
      there p (Kube.Get.found unit) Kube.Get.not_found exists h next = absurd (exists refl)
      there p (Kube.Get.found unit) (Kube.Get.failed e) exists h next = cc
      there p (Kube.Get.found unit) (Kube.Get.found _) exists h next =
          next (unless_open-eq-ok (decoded y (g.read bucket p t)) (g.close_reader bucket p t) h)

  s3_provider-IsBackup : (g : S3 S) (bucket : String) → IsS3 g → IsBackup (s3_provider y g bucket)
  unfolding s3_provider s3_backup s3_restore
  s3_provider-IsBackup g bucket i secret s t r backed restored =
      let h = failure-eq-none (s3_backup g y bucket secret s) backed in
      let (content, made, h1) = lift-eq-ok (y.marshal secret) _ s h in
      let p = path secret.namespace secret.name in
      let puts = call-eq-ok (g.put_object bucket p content s) s h1 in
      there (g.get_object bucket p t) (i.put-there bucket p content s t puts)
        (λ found e. i.put-read bucket p content found s t puts e) made restored
    where
      there :
          {content : String} (x : Get (Result String))
          → x ≢ Kube.Get.not_found
          → ((found : String) → x ≡ Kube.Get.found (ok found) → found ≡ content)
          → y.marshal secret ≡ ok content
          → with_response g y bucket x ≡ ok r
          → r ≡ some secret
      there Kube.Get.not_found exists kept made h = absurd (exists refl)
      there (Kube.Get.failed e) exists kept made h = cc
      there {content} (Kube.Get.found x) exists kept made h =
          same_secret y secret content x yaml made
            (λ found e. kept found (ap (λ z. Kube.Get.found z) e)) h

-- Both providers keep the contract, if the storage services keep what is written and YAML decodes
-- what it has encoded: after a backup without an error, a restore of the same secret answers that
-- secret or an error, and never that there is no backup.
pub providers-IsBackup :
    {S : Type 0} (y : Yaml) (gcs : Gcs S) (s3 : S3 S) (bucket : String)
    → IsYaml y
    → IsGcs gcs
    → IsS3 s3
    → IsBackup (gcs_provider y gcs bucket) × IsBackup (s3_provider y s3 bucket)
providers-IsBackup y gcs s3 bucket yaml i j =
    (gcs_provider-IsBackup y yaml gcs bucket i, s3_provider-IsBackup y yaml s3 bucket j)
