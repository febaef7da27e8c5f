-- ===== src/Backup/Config.antt =====
-- cmd/backup: the choice of a provider by flags. The flags are their values.
use etok.Base.{String, ◌<>◌, Option, none, some, List, [], ◌∷◌, ◌++◌, ◌==◌, if◌then◌else◌}
use etok.Base.Dict.{Dict, lookup, insert}
use etok.Base.Text.{join}
use etok.Kube.{Error, Result, ok, err}
use etok.WorkspaceController.State.{Provider}
use etok.Backup.{Yaml, Gcs, S3, new_gcs_provider, new_s3_provider}

pub data Flags : Type 0 where
  gcs_flags : String → Flags
  s3_flags : String → String → Flags

-- The flags of each provider by its name, and the provider that is selected.
pub record Config : Type 0 where
  pub providers : List String
  pub provider_to_flags : Dict Flags
  pub selected : String

add_mappings : List (String × Flags) → Config → Config
add_mappings [] c = c
add_mappings ((name, flags) ∷ mappings) c = add_mappings mappings (record c {
  providers = c.providers ++ (name ∷ []);
  provider_to_flags = insert name flags c.provider_to_flags;
})

unfoldable pub new_config : List (String × Flags) → String → Config
unfolding add_mappings
new_config mappings selected =
    add_mappings mappings (record { providers = []; provider_to_flags = []; selected = selected })

abbrev invalid : String → Option Error
invalid text = some ("invalid backup config: " <> text)

unfoldable pub validate_flags : Flags → Option Error
validate_flags (gcs_flags bucket) = if bucket == "" then invalid "missing gcs bucket name" else none
validate_flags (s3_flags bucket region) =
    if bucket == ""
    then invalid "missing s3 bucket name"
    else if region == ""
    then invalid "missing s3 region name"
    else none

abbrev validated : Config → Option Flags → Option Error
validated c none = invalid (
    "invalid provider: "
    <> (c.selected <> (" (valid providers: " <> (join c.providers "," <> ")"))))
validated c (some flags) = validate_flags flags

unfoldable pub validate : Config → Option Error
unfolding validate_flags
validate c = if c.selected == "" then none else validated c (lookup c.selected c.provider_to_flags)

-- The clients of the services, which the SDKs make; the one of S3 for a region.
module _ {S : Type 0} (y : Yaml) (gcs : Gcs S) (s3 : String → S3 S) where
  unfoldable pub create_provider : Flags → S → Result (Provider S)
  create_provider (gcs_flags bucket) s = new_gcs_provider y gcs bucket s
  create_provider (s3_flags bucket region) s = new_s3_provider y (s3 region) bucket s

  abbrev made : Option Flags → S → Result (Option (Provider S))
  unfolding create_provider
  made none s = ok none
  made (some flags) s = elim (create_provider flags s) [ err e ↦ err e | ok p ↦ ok (some p) ]

  unfoldable pub create_selected_provider : Config → S → Result (Option (Provider S))
  unfolding create_provider
  create_selected_provider c s = made (lookup c.selected c.provider_to_flags) s
