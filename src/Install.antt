-- ===== src/Install.antt =====
-- cmd/install/install.go: the operator's resources, as the command prepares and applies them.
pub mod Resources
pub mod Ready
pub mod Webhook
pub mod Laws
pub mod Applies
pub mod Operator
use etok.Base.{
  String, ◌<>◌, Bool, true, false, not, ◌&&◌, Option, none, some, List, [], ◌∷◌, ◌++◌, ◌==◌,
  if◌then◌else◌,
}
use etok.Base.Text.{join}
use etok.Labels.{Version, operator_component}
use etok.Kube
use etok.Kube.{Error, Get, Result, ok, err}
use etok.Kube.Effect.{Done}
use etok.Install.Resources.{
  Resource, Template, Server, Attempt, got, fails, panics, namespaced, override_containers,
  annotated, labelled, apply_resource, is_skipped, InstallOptions, with_image,
}
use etok.Install.Ready.{Readiness, deployment_is_ready}
use etok.RunPod.{env}

-- The environment of the one container gets the image and the backup flags, and if the secret is
-- there its variables are loaded.
abbrev with_secret : Bool → Template → Option (List String) → Option Template
with_secret false c env_from = some c
with_secret true c none = none
with_secret true c (some env_from) = some (record c { env_from = some (env_from ++ ("etok" ∷ [])) })

unfoldable pub override_template : InstallOptions → Bool → Template → Option Template
unfolding with_image
override_template o secret_present c = elim (c.env) [
  | none ↦ none
  | some vars ↦
      let c' : Template = record (with_image o.image c) {
        env = some (vars ++ (env "ETOK_IMAGE" o.image ∷ o.backup_env));
      } in
      with_secret secret_present c' c.env_from
]

unfoldable pub prepare : Version → InstallOptions → Bool → Resource → Option Resource
unfolding override_template override_containers namespaced annotated labelled
prepare version o secret_present r =
    elim (override_containers (override_template o secret_present) (namespaced o.namespace r)) [
      | none ↦ none
      | some r' ↦
          some (labelled version operator_component (annotated o.service_account_annotations r'))
    ]

-- The rounds that follow one, unless it has ended the loop.
abbrev pub next :
    {S : Type 0}
    → (List String → S → Attempt (List String) × S)
    → Attempt (List String) × S
    → Attempt (List String) × S
next rest (got docs, s) = rest docs s
next rest (fails e, s) = (fails e, s)
next rest (panics, s) = (panics, s)

module _ {S : Type 0} (v : Server S) (version : Version) (o : InstallOptions) where
  -- What is done with a resource that is prepared: it is added to the documents, or applied.
  unfoldable pub emit : List String → Option Resource → S → Attempt (List String) × S
  unfolding apply_resource
  emit docs none s = (panics, s)
  emit docs (some r) s =
      if o.dry_run
      then (elim (v.marshal r) [ none ↦ panics | some doc ↦ got (docs ++ (doc ∷ [])) ], s)
      else (let (failure, s') = apply_resource v r s in
          (elim failure [ none ↦ got docs | some e ↦ fails e ], s'))

  -- A round of the loop, with the documents so far.
  unfoldable pub install_one : Bool → List String → Result Resource → S → Attempt (List String) × S
  unfolding emit prepare is_skipped
  install_one secret_present docs (err e) s = (fails e, s)
  install_one secret_present docs (ok r) s =
      if is_skipped o.crds_only r
      then (got docs, s)
      else emit docs (prepare version o secret_present r) s

  -- The loop over the manifests.
  unfoldable pub install_loop : Bool → List String → List String → S → Attempt (List String) × S
  unfolding install_one
  install_loop secret_present [] docs s = (got docs, s)
  install_loop secret_present (manifest ∷ manifests) docs s =
      next (install_loop secret_present manifests)
        (install_one secret_present docs (v.decode manifest) s)

  -- What a dry run prints at the end.
  abbrev pub printed : Attempt (List String) × S → Attempt (Option String) × S
  printed (got docs, s) = (got (if o.dry_run then some (join docs "\n---\n") else none), s)
  printed (fails e, s) = (fails e, s)
  printed (panics, s) = (panics, s)

  -- With what the check for the secret has answered.
  unfoldable pub install_all : List String → Get Done → S → Attempt (Option String) × S
  unfolding install_loop
  install_all manifests (Kube.Get.failed e) s = (fails ("unable to check for secret: " <> e), s)
  install_all manifests Kube.Get.not_found s = printed (install_loop false manifests [] s)
  install_all manifests (Kube.Get.found unit) s = printed (install_loop true manifests [] s)

  -- The namespace of the options is ensured first, and an error of that is dropped; the secret is
  -- looked for in the namespace etok.
  unfoldable pub with_resources : Result (List String) → S → Attempt (Option String) × S
  unfolding install_all
  with_resources (err e) s = (panics, s)
  with_resources (ok manifests) s =
      let s' = v.ensure_namespace o.namespace s in
      install_all manifests (v.get_secret "etok" "etok" s') s'

  unfoldable pub install : S → Attempt (Option String) × S
  unfolding with_resources
  install s = with_resources v.operator_resources s

  abbrev waited : Readiness → Attempt (Option String) × S → Attempt (Option String) × S
  waited q (got doc, s) =
      if o.wait && not o.crds_only && not o.dry_run
      then (
        elim (deployment_is_ready q) [
          | none ↦ got doc
          | some e ↦ fails ("failure while waiting for deployment to be ready: " <> e)
        ],
        s,
      )
      else (got doc, s)
  waited q (fails e, s) = (fails e, s)
  waited q (panics, s) = (panics, s)

  -- The command, with what the flags of the backup say, the client, and what is seen of the
  -- deployment while the command waits for it.
  unfoldable pub install_cmd :
      Option Error → Result Done → Readiness → S → Attempt (Option String) × S
  unfolding install deployment_is_ready
  install_cmd (some e) client q s = (fails e, s)
  install_cmd none (err e) q s = (fails e, s)
  install_cmd none (ok unit) q s = waited q (install s)
