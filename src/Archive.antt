-- ===== src/Archive.antt =====
-- pkg/archive: rule_matcher.go; max_writer.go in Writer, modwalker.go in Modules.
pub mod Writer
pub mod Modules
pub mod Pack
pub mod Unpack
pub mod Bundle
use etok.Base.{
  ℕ, suc, String, ◌<>◌, Bool, true, false, Option, none, some, List, [], ◌∷◌, ◌++◌, ◌==◌,
  if◌then◌else◌,
}
use etok.Base.FilePath.{path_join, dir, rel}
use etok.Kube
use etok.Kube.{Get}
use etok.Ignore.{Rule, default_exclusions, read_rules, match_ignore_rule}

pub record RuleMatcher : Type 0 where
  pub rules : List Rule
  pub base : String

unfoldable pub ignore_file : String → String
ignore_file path = path_join (path ∷ ".terraformignore" ∷ [])

-- The ignore file is its lines, and whether the scanner ended with an error. None is a panic.
unfoldable pub new_rule_matcher : String → Get (List String × Bool) → Option RuleMatcher
unfolding ignore_file
new_rule_matcher path (Kube.Get.found (lines, failed)) = elim (read_rules lines failed) [
  | none ↦ none
  | some rules ↦ some (record { rules = rules; base = dir (ignore_file path) })
]
new_rule_matcher path _ = some (record { rules = default_exclusions; base = path })

module _ (match_string : String → String → Option Bool) where
  abbrev match_file : RuleMatcher → Option String → Bool
  match_file rm none = false
  match_file rm (some path) =
      if path == "." then true else match_ignore_rule match_string path rm.rules

  -- `match` answers no error: one of filepath.Rel is answered as no match.
  unfoldable pub match : RuleMatcher → String → Bool → Bool
  match rm path is_dir =
      if is_dir
      then match_ignore_rule match_string (path <> "/") rm.rules
      else match_file rm (rel rm.base path)
