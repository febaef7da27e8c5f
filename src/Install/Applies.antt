-- ===== src/Install/Applies.antt =====
-- What the command leaves when it ends well.
use etok.Base.{
  String, Bool, true, false, ◌≡◌, refl, sym, ap, ◌∙◌, Option, none, some, List, [], ◌∷◌, ◌++◌,
  arith, if◌then◌else◌,
}
use etok.Labels.{Version}
use etok.Kube
use etok.Kube.{Error, Get, Result, ok, err}
use etok.Kube.Effect.{Done}
use etok.Install.Resources.{
  Resource, Server, Attempt, got, fails, panics, apply_resource, is_skipped, InstallOptions,
}
use etok.Install.{
  next, prepare, emit, install_one, install_loop, printed, install_all, with_resources, install,
}

abbrev following : {S : Type 0} → (S → Option Error × S) → Option Error × S → Option Error × S
following rest (none, s) = rest s
following rest (some e, s) = (some e, s)

-- Resources applied one after the other, until one fails.
unfoldable pub apply_all : {S : Type 0} → Server S → List Resource → S → Option Error × S
unfolding apply_resource
apply_all v [] s = (none, s)
apply_all v (r ∷ rs) s = following (apply_all v rs) (apply_resource v r s)

module _ {S : Type 0} (v : Server S) (version : Version) (o : InstallOptions) where
  -- The prepared form of the resource of a manifest, unless it is not wanted.
  abbrev pub wanted_one : Bool → Result Resource → List Resource
  wanted_one secret_present (err e) = []
  wanted_one secret_present (ok r) =
      elim (if is_skipped o.crds_only r then none else prepare version o secret_present r) [
        | none ↦ []
        | some r' ↦ r' ∷ []
      ]

  abbrev pub wanted : Bool → List String → List Resource
  wanted secret_present [] = []
  wanted secret_present (m ∷ ms) =
      wanted_one secret_present (v.decode m) ++ wanted secret_present ms

  following-none :
      (rest : S → Option Error × S) (x : Option Error × S) (u : S)
      → following rest x ≡ (none, u)
      → (w : S) × (x ≡ (none, w)) × (rest w ≡ (none, u))
  following-none rest (none, w) u h = (w, refl, h)
  following-none rest (some e, w) u h = cc

  apply_all-append :
      (rs qs : List Resource) (s u t : S)
      → apply_all v rs s ≡ (none, u)
      → apply_all v qs u ≡ (none, t)
      → apply_all v (rs ++ qs) s ≡ (none, t)
  unfolding apply_all
  apply_all-append [] qs s u t h k = let same : s ≡ u = ap (λ p. p.1) h in rw same k
  apply_all-append (r ∷ rs) qs s u t h k =
      let (w, one, rest) = following-none (apply_all v rs) (apply_resource v r s) u h in
      ap (following (apply_all v (rs ++ qs))) one ∙ apply_all-append rs qs w u t rest k

  next-got :
      (rest : List String → S → Attempt (List String) × S) (x : Attempt (List String) × S)
      (docs : List String) (t : S)
      → next rest x ≡ (got docs, t)
      → (docs' : List String) × (u : S) × (x ≡ (got docs', u)) × (rest docs' u ≡ (got docs, t))
  next-got rest (got docs', u) docs t h = (docs', u, refl, h)
  next-got rest (fails e, u) docs t h = cc
  next-got rest (panics, u) docs t h = cc

  install_one-applies :
      (secret_present : Bool) (docs docs' : List String) (d : Result Resource) (s u : S)
      → o.dry_run ≡ false
      → install_one v version o secret_present docs d s ≡ (got docs', u)
      → apply_all v (wanted_one secret_present d) s ≡ (none, u)
  unfolding install_one emit apply_all
  install_one-applies secret_present docs docs' (err e) s u wet h = cc
  install_one-applies secret_present docs docs' (ok r) s u wet h = ground arith

  install_loop-applies :
      (secret_present : Bool) (manifests docs docs' : List String) (s t : S)
      → o.dry_run ≡ false
      → install_loop v version o secret_present manifests docs s ≡ (got docs', t)
      → apply_all v (wanted secret_present manifests) s ≡ (none, t)
  unfolding install_loop apply_all
  install_loop-applies secret_present [] docs docs' s t wet h = ap (λ p. (none, p.1)) h
  install_loop-applies secret_present (m ∷ ms) docs docs' s t wet h =
      let (docs'', u, one, rest) = next-got _ _ docs' t h in
      apply_all-append (wanted_one secret_present (v.decode m)) (wanted secret_present ms) s u t
        (install_one-applies secret_present docs docs'' (v.decode m) s u wet one)
        (install_loop-applies secret_present ms docs'' docs' u t wet rest)

  printed-got :
      (x : Attempt (List String) × S) (doc : Option String) (t : S)
      → printed v version o x ≡ (got doc, t)
      → (docs : List String) × (x ≡ (got docs, t))
  printed-got (got docs, u) doc t h = (docs, ap (λ p. (got docs, p.1)) h)
  printed-got (fails e, u) doc t h = cc
  printed-got (panics, u) doc t h = cc

  -- Whether the secret is there.
  abbrev pub is_found : Get Done → Bool
  is_found (Kube.Get.found unit) = true
  is_found _ = false

  install_all-applies :
      (manifests : List String) (g : Get Done) (doc : Option String) (s t : S)
      → o.dry_run ≡ false
      → install_all v version o manifests g s ≡ (got doc, t)
      → apply_all v (wanted (is_found g) manifests) s ≡ (none, t)
  unfolding install_all
  install_all-applies manifests (Kube.Get.failed e) doc s t wet h = cc
  install_all-applies manifests Kube.Get.not_found doc s t wet h =
      let (docs, same) = printed-got _ doc t h in
      install_loop-applies false manifests [] docs s t wet same
  install_all-applies manifests (Kube.Get.found unit) doc s t wet h =
      let (docs, same) = printed-got _ doc t h in
      install_loop-applies true manifests [] docs s t wet same

  -- When the manifests are read, the command ends well and it is no dry run, its state is that of applying the prepared
  -- forms of the wanted resources in their order, all of them without an error, once the namespace
  -- is ensured.
  pub install-applies :
      (manifests : List String) (doc : Option String) (s t : S)
      → v.operator_resources ≡ ok manifests
      → o.dry_run ≡ false
      → install v version o s ≡ (got doc, t)
      → let s' = v.ensure_namespace o.namespace s in
        apply_all v (wanted (is_found (v.get_secret "etok" "etok" s')) manifests) s' ≡ (none, t)
  unfolding install with_resources
  install-applies manifests doc s t at wet h =
      let ends : with_resources v version o (ok manifests) s ≡ (got doc, t) =
        ap (λ x. with_resources v version o x s) (sym at) ∙ h in
      install_all-applies manifests _ doc _ t wet ends
