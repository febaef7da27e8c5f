-- ===== src/Install/Laws.antt =====
-- What the command writes.
use etok.Base.{
  String, Bool, true, false, ◌≡◌, refl, sym, subst, ◌⊎◌, inl, inr, Option, none, some, List, [],
  ◌∷◌, ◌==◌, arith, ap, ◌∙◌, Bool-cases,
}
use etok.Base.Dict.{lookup, lookup-insert}
use etok.Labels.{
  Version, operator_component, set_label, set_common_labels, component, new_label, dashed,
}
use etok.Kube
use etok.Kube.{Error, Get, Result, ok, err}
use etok.Kube.Effect.{Done}
use etok.Install.Resources.{
  Resource, Template, Server, Attempt, got, fails, panics, namespaced, override_containers,
  annotated, labelled, apply_resource, is_skipped, InstallOptions, is_crd, is_cluster_scoped,
}
use etok.Install.{
  next, override_template, prepare, emit, install_one, install_loop, printed, install_all,
  with_resources, install,
}

-- The second state comes of the first by creations and patches of resources of a kind, any of which
-- may fail.
pub data Writes {S : Type 0} (v : Server S) (P : Resource → Type 0) (s : S) : S → Type 0 where
  unwritten : Writes v P s s
  written :
      {u t : S} (r : Resource) (e : Option Error)
      → Writes v P s u
      → P r
      → (v.create r u ≡ (e, t)) ⊎ (v.patch r u ≡ (e, t))
      → Writes v P s t

-- What holds of every resource that is written.
abbrev pub IsInstalled : InstallOptions → Resource → Type 0
IsInstalled o r =
    (o.dry_run ≡ false)
    × (o.crds_only ≡ true → is_crd r ≡ true)
    × (is_cluster_scoped r ≡ false → r.namespace ≡ o.namespace)
    × (lookup "app" r.labels ≡ some "etok")
    × (lookup "component" r.labels ≡ some "operator")

module _ {S : Type 0} (v : Server S) (version : Version) (o : InstallOptions) where
  apply_resource-Writes :
      {P : Resource → Type 0} (start s : S) (r : Resource)
      → P r
      → Writes v P start s
      → Writes v P start (apply_resource v r s).1
  unfolding apply_resource
  apply_resource-Writes {P} start s r p h = go (v.get r s) refl
    where
      go : (g : Get Done) → v.get r s ≡ g → Writes v P start (apply_resource v r s).1
      go Kube.Get.not_found at = rw (at, apply_resource) (written r (v.create r s).0 h p (inl refl))
      go (Kube.Get.failed e) at = rw (at, apply_resource) h
      go (Kube.Get.found unit) at =
          rw (at, apply_resource) (written r (v.patch r s).0 h p (inr refl))

  override_containers-keeps :
      (f : Template → Option Template) (r r' : Resource)
      → override_containers f r ≡ some r'
      → (r'.kind ≡ r.kind) × (r'.metadata ≡ r.metadata)
  unfolding override_containers
  override_containers-keeps f r r' e = ground arith

  labelled-labels :
      (r : Resource)
      → let r' = labelled version operator_component r in
        (lookup "app" r'.labels ≡ some "etok") × (lookup "component" r'.labels ≡ some "operator")
  unfolding labelled set_label set_common_labels operator_component component new_label dashed
  labelled-labels r = (simp lookup-insert, simp lookup-insert)

  -- The kind, and the namespace of what has one.
  abbrev IsPlaced : String → String → Resource → Type 0
  IsPlaced kind namespace r =
      (r.kind ≡ kind) × (is_cluster_scoped r ≡ false → r.namespace ≡ namespace)

  namespaced-IsPlaced : (r : Resource) → IsPlaced r.kind o.namespace (namespaced o.namespace r)
  unfolding namespaced
  namespaced-IsPlaced r = ground arith

  IsPlaced-same :
      (kind namespace : String) (q r : Resource)
      → q.kind ≡ r.kind
      → q.metadata ≡ r.metadata
      → IsPlaced kind namespace r
      → IsPlaced kind namespace q
  IsPlaced-same kind namespace q r e d h = ground arith

  annotated-IsPlaced :
      (kind : String) (r : Resource)
      → IsPlaced kind o.namespace r
      → IsPlaced kind o.namespace (annotated o.service_account_annotations r)
  unfolding annotated
  annotated-IsPlaced kind r h = ground arith

  labelled-IsPlaced :
      (kind : String) (r : Resource)
      → IsPlaced kind o.namespace r
      → IsPlaced kind o.namespace (labelled version operator_component r)
  unfolding labelled set_label set_common_labels
  labelled-IsPlaced kind r h = h

  prepare-some :
      (secret_present : Bool) (r r' : Resource)
      → prepare version o secret_present r ≡ some r'
      → (q : Resource) × (override_containers
            (override_template o secret_present)
            (namespaced o.namespace r)
          ≡ some q)
        × (r' ≡ labelled version operator_component (annotated o.service_account_annotations q))
  unfolding prepare
  prepare-some secret_present r r' e = ground arith

  prepare-IsInstalled :
      (secret_present : Bool) (r r' : Resource)
      → o.dry_run ≡ false
      → is_skipped o.crds_only r ≡ false
      → prepare version o secret_present r ≡ some r'
      → IsInstalled o r'
  unfolding is_skipped
  prepare-IsInstalled secret_present r r' wet kept e =
      let (q, overridden, same) = prepare-some secret_present r r' e in
      let (kind, metadata) = override_containers-keeps _ (namespaced o.namespace r) q overridden in
      let placed = labelled-IsPlaced r.kind _ (
        annotated-IsPlaced r.kind q (
          IsPlaced-same r.kind o.namespace q (namespaced o.namespace r) kind metadata
            (namespaced-IsPlaced r))) in
      rw same (
        (
          wet,
          λ only. ap (λ x. x == "CustomResourceDefinition") placed.0 ∙ ground arith,
          placed.1,
          (labelled-labels _).0,
          (labelled-labels _).1,
        ))

  emit-Writes :
      {P : Resource → Type 0} (start s : S) (docs : List String) (x : Option Resource)
      → ((r : Resource) → x ≡ some r → o.dry_run ≡ false → P r)
      → Writes v P start s
      → Writes v P start (emit v version o docs x s).1
  unfolding emit
  emit-Writes start s docs none p h = h
  emit-Writes start s docs (some r) p h = elim (Bool-cases o.dry_run) [
    | inl dry ↦ rw dry h
    | inr wet ↦ rw wet (apply_resource-Writes start s r (p r refl wet) h)
  ]

  install_one-Writes :
      (start s : S) (secret_present : Bool) (docs : List String) (d : Result Resource)
      → Writes v (IsInstalled o) start s
      → Writes v (IsInstalled o) start (install_one v version o secret_present docs d s).1
  unfolding install_one
  install_one-Writes start s secret_present docs (err e) h = h
  install_one-Writes start s secret_present docs (ok r) h =
      elim (Bool-cases (is_skipped o.crds_only r)) [
        | inl skipped ↦ rw skipped h
        | inr kept ↦ rw kept (
            emit-Writes start s docs (prepare version o secret_present r)
              (λ r' e wet. prepare-IsInstalled secret_present r r' wet kept e) h)
      ]

  next-Writes :
      {P : Resource → Type 0} (start : S) (rest : List String → S → Attempt (List String) × S)
      → ((docs : List String) (s : S) → Writes v P start s → Writes v P start (rest docs s).1)
      → (x : Attempt (List String) × S) → Writes v P start x.1
      → Writes v P start (next rest x).1
  next-Writes start rest k (got docs, s) h = k docs s h
  next-Writes start rest k (fails e, s) h = h
  next-Writes start rest k (panics, s) h = h

  install_loop-Writes :
      (secret_present : Bool) (manifests docs : List String) (start s : S)
      → Writes v (IsInstalled o) start s
      → Writes v (IsInstalled o) start (install_loop v version o secret_present manifests docs s).1
  unfolding install_loop
  install_loop-Writes secret_present [] docs start s h = h
  install_loop-Writes secret_present (m ∷ ms) docs start s h =
      next-Writes start _ (λ docs' s' h'. install_loop-Writes secret_present ms docs' start s' h') _
        (install_one-Writes start s secret_present docs (v.decode m) h)

  printed-state : (x : Attempt (List String) × S) → (printed v version o x).1 ≡ x.1
  printed-state (got docs, s) = refl
  printed-state (fails e, s) = refl
  printed-state (panics, s) = refl

  install_all-Writes :
      (manifests : List String) (g : Get Done) (s : S)
      → Writes v (IsInstalled o) s (install_all v version o manifests g s).1
  unfolding install_all
  install_all-Writes manifests (Kube.Get.failed e) s = unwritten
  install_all-Writes manifests Kube.Get.not_found s =
      rw (printed-state _) (install_loop-Writes false manifests [] s s unwritten)
  install_all-Writes manifests (Kube.Get.found unit) s =
      rw (printed-state _) (install_loop-Writes true manifests [] s s unwritten)

  -- Once the manifests are read and the namespace is ensured, whatever the command does, up to the
  -- end or up to an error or a panic, it writes no resource in a dry run, none but custom resource
  -- definitions when only these are wanted, and none but those that bear the labels of the operator
  -- and stand in the chosen namespace, if their kind has one.
  pub install-Writes :
      (manifests : List String) (s : S)
      → v.operator_resources ≡ ok manifests
      → Writes v (IsInstalled o) (v.ensure_namespace o.namespace s) (install v version o s).1
  unfolding install with_resources
  install-Writes manifests s at =
      subst
        (λ x.
          Writes v (IsInstalled o) (v.ensure_namespace o.namespace s)
            (with_resources v version o x s).1)
        (sym at) (install_all-Writes manifests _ _)
