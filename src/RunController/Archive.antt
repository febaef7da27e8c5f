-- ===== src/RunController/Archive.antt =====
-- Ownership: pkg/controllers/controller_ref.go and `setOwnerOfArchive`.
use etok.Base.{
  ℕ, suc, String, Bool, true, false, ◌&&◌, Option, none, some, List, [], ◌∷◌, ◌==◌, if◌then◌else◌,
}
use etok.Api.Meta.{ObjectMeta, OwnerReference}
use etok.Api.Run.{Run}
use etok.Kube.{
  Error, Get, Result, ok, err, ConfigMap, Object, run_object, config_map_object, Client,
}
use etok.Kube

abbrev next_index : Option ℕ → Option ℕ
next_index none = none
next_index (some i) = some (suc i)

module _ (k : Client) where
  -- The reference is built from the kind and version of the object, and the name and UID of the
  -- owner.
  unfoldable pub new_owner_reference : ObjectMeta → Object → OwnerReference
  new_owner_reference owner object = record {
    api_version = k.gvk_version object;
    kind = k.gvk_kind object;
    name = owner.name;
    uid = owner.uid;
  }

  abbrev same_group : Option String → Option String → Bool
  same_group none b = false
  same_group (some a) none = false
  same_group (some a) (some b) = a == b

  unfoldable pub refer_same_object : OwnerReference → OwnerReference → Bool
  refer_same_object a b =
      same_group (k.parse_group_version a.api_version) (k.parse_group_version b.api_version)
      && a.kind == b.kind
      && a.name == b.name
      && a.uid == b.uid

  unfoldable pub index_owner_ref : List OwnerReference → OwnerReference → Option ℕ
  index_owner_ref [] ref = none
  index_owner_ref (r ∷ refs) ref =
      let rest : Option ℕ = next_index (index_owner_ref refs ref) in
      if refer_same_object r ref then some 0 else rest

  abbrev is_found : Option ℕ → Bool
  is_found none = false
  is_found (some i) = true

  unfoldable pub is_already_owner : ObjectMeta → Object → ObjectMeta → Bool
  unfolding new_owner_reference refer_same_object index_owner_ref
  is_already_owner owner object meta =
      is_found (index_owner_ref meta.owner_references (new_owner_reference owner object))

  -- The loop of `setOwnerOfArchive` over the owner references.
  unfoldable pub owned_loop : List OwnerReference → String → Bool
  owned_loop [] name = false
  owned_loop (ref ∷ refs) name =
      let rest = owned_loop refs name in
      if ref.kind == "Run" && ref.name == name then true else rest

  own_archive : Run → ConfigMap → k.State → Option Error × k.State
  own_archive run archive s =
      if owned_loop archive.owner_references run.name
      then (none, s)
      else elim (k.set_owner_reference (run_object run) archive.metadata) [
        | err e ↦ (some e, s)
        | ok meta ↦ k.update (config_map_object (record archive { metadata = meta })) s
      ]

  unfoldable pub set_owner_of_archive : Run → k.State → Option Error × k.State
  unfolding owned_loop own_archive
  set_owner_of_archive run s = elim (k.get_config_map run.namespace run.name s) [
    | Kube.Get.not_found ↦ (none, s)
    | Kube.Get.failed e ↦ (some e, s)
    | Kube.Get.found archive ↦ own_archive run archive s
  ]
