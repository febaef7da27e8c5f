-- ===== src/Install/Webhook.antt =====
-- cmd/github/deployer.go: the resources of the webhook server.
use etok.Base.{String, ◌<>◌, Bool, Option, none, some, List, [], ◌∷◌, if◌then◌else◌}
use etok.Base.Dict.{Dict}
use etok.Labels.{Version, webhook_component}
use etok.Kube.{Error, Result, ok, err}
use etok.Kube.Effect.{Done}
use etok.Install.Resources.{
  Resource, Server, Attempt, got, fails, panics, namespaced, override_containers, annotated,
  labelled, apply_resource, is_skipped, with_image,
}
use etok.Install.Ready.{Readiness, deployment_is_ready}

pub record Deployer : Type 0 where
  pub namespace : String
  pub image : String
  pub crds_only : Bool
  pub service_account_annotations : Dict String

abbrev answered : {S : Type 0} → Option Error × S → Attempt Done × S
answered (none, s) = (got tt, s)
answered (some e, s) = (fails e, s)

unfoldable pub prepare : Version → Deployer → Resource → Option Resource
unfolding override_containers namespaced annotated labelled with_image
prepare version d r =
    elim (override_containers (λ c. some (with_image d.image c)) (namespaced d.namespace r)) [
      | none ↦ none
      | some r' ↦
          some (labelled version webhook_component (annotated d.service_account_annotations r'))
    ]

-- The rounds that follow one, unless it has ended the loop.
abbrev next : {S : Type 0} → (S → Attempt Done × S) → Attempt Done × S → Attempt Done × S
next rest (got unit, s) = rest s
next rest (fails e, s) = (fails e, s)
next rest (panics, s) = (panics, s)

module _ {S : Type 0} (v : Server S) (version : Version) (d : Deployer) where
  unfoldable pub deploy_prepared : Option Resource → S → Attempt Done × S
  unfolding apply_resource
  deploy_prepared none s = (panics, s)
  deploy_prepared (some r) s = answered (apply_resource v r s)

  unfoldable pub deploy_one : Result Resource → S → Attempt Done × S
  unfolding deploy_prepared prepare is_skipped
  deploy_one (err e) s = (fails e, s)
  deploy_one (ok r) s =
      if is_skipped d.crds_only r then (got tt, s) else deploy_prepared (prepare version d r) s

  unfoldable pub deploy_loop : List String → S → Attempt Done × S
  unfolding deploy_one
  deploy_loop [] s = (got tt, s)
  deploy_loop (manifest ∷ manifests) s =
      next (deploy_loop manifests) (deploy_one (v.decode manifest) s)

  unfoldable pub deploy : S → Attempt Done × S
  unfolding deploy_loop
  deploy s = elim (v.webhook_resources) [
    | err e ↦ (panics, s)
    | ok manifests ↦ deploy_loop manifests s
  ]

-- `wait`
unfoldable pub wait : Readiness → Option Error
unfolding deployment_is_ready
wait q = elim (deployment_is_ready q) [
  | none ↦ none
  | some e ↦ some ("failure while waiting for deployment to be ready: " <> e)
]
