-- ===== src/Archive/Bundle.antt =====
-- pkg/archive/archive.go: the archive of a root module, and the config map that holds it.
use etok.Base.{ℕ, String, Bool, Option, none, some, List, [], ◌∷◌, ◌++◌}
use etok.Kube.{Get, Result, ok, err, ConfigMap}
use etok.Labels
use etok.Labels.{Version, set_common_labels, set_label}
use etok.RunPod.{named}
use etok.Api.Run.{run_default_config_map_key}
use etok.Paths.{ensure_abs}
use etok.Archive.{RuleMatcher, new_rule_matcher}
use etok.Archive.Modules.{walk}
use etok.Archive.Writer.{max_config_size}
use etok.Archive.Pack.{Disk, Tar, Meta, pack}

pub record Archive : Type 0 where
  pub root : String
  pub mods : List String
  pub base : String
  pub max_size : ℕ

unfoldable pub new_archive : (String → Result String) → String → String → Result Archive
unfolding ensure_abs
new_archive abs root base = elim (ensure_abs abs root) [
  | err e ↦ err e
  | ok root' ↦ elim (ensure_abs abs base) [
    | err e ↦ err e
    | ok base' ↦
        ok (record { root = root'; mods = root' ∷ []; base = base'; max_size = max_config_size })
  ]
]

-- `Walk` adds the local modules to the root module.
abbrev with_mods : Archive → Option (Result (List String)) → Option (Result Archive)
with_mods a none = none
with_mods a (some (err e)) = some (err e)
with_mods a (some (ok mods)) = some (ok (record a { mods = a.mods ++ mods }))

unfoldable pub walk_archive :
    (String → Result (List String)) → ℕ → Archive → Option (Result Archive)
walk_archive load_module fuel a = with_mods a (walk load_module fuel a.root)

abbrev pub and_then :
    {A B : Type 0} → Option (Result A) → (A → Option (Result B)) → Option (Result B)
and_then none f = none
and_then (some (err e)) f = some (err e)
and_then (some (ok a)) f = f a

abbrev without_panic : Option RuleMatcher → Option (Result RuleMatcher)
without_panic none = some (err "panic")
without_panic (some m) = some (ok m)

abbrev packed : {W : Type 0} → (W → String) → Option (Result Meta × W) → Option (Result String)
packed bytes none = none
packed bytes (some (err e, w)) = some (err e)
packed bytes (some (ok meta, w)) = some (ok (bytes w))

-- `ConfigMap`: the writer starts empty, with the limit of the archive. None where the walk over the
-- modules or over the links runs out of fuel.
unfoldable pub config_map :
    {W : Type 0} (t : Tar W) (start : ℕ → W) (bytes : W → String) (d : Disk)
    (ignore_lines : String → Get (List String × Bool)) (load_module : String → Result (List String))
    (abs : String → Result String) (version : Version) (fuel : ℕ)
    → String
    → String
    → String
    → String
    → Option (Result ConfigMap)
unfolding new_archive walk_archive pack
config_map t start bytes d ignore_lines load_module abs version fuel namespace name path base =
    and_then (some (new_archive abs path base)) (λ a.
      and_then (walk_archive load_module fuel a) (λ a'.
        and_then (without_panic (new_rule_matcher a'.base (ignore_lines a'.base))) (λ m.
          and_then (packed bytes (pack t d a'.base m fuel a'.mods (start a'.max_size))) (λ content.
            some (
              ok (record {
                metadata =
                    set_label (set_common_labels version (named name namespace))
                      Labels.run_component;
                content = (run_default_config_map_key, content) ∷ [];
              }))))))
