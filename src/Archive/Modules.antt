-- ===== src/Archive/Modules.antt =====
-- pkg/archive/modwalker.go: the local modules that a root module calls. The recursion goes on until
-- the calls end, here for as many levels as the fuel has.
pub mod Laws
use text.Mathlib.Text.{starts_with}
use etok.Base.{
  ℕ, zero, suc, ◌+◌, ◌<◌, ◌≤◌, ◌≡◌, refl, String, Bool, true, false, ◌||◌, Option, none, some, List,
  [], ◌∷◌, ◌++◌, arith, All, if◌then◌else◌, nat_eq,
}
use etok.Base.FilePath.{path_join}
use etok.Kube.{Error, Result, ok, err}

unfoldable pub is_local_path : String → Bool
is_local_path path = starts_with path "./" || starts_with path "../"

-- The library that parses a module answers the sources of its calls.
module _ (load_module : String → Result (List String)) where
  abbrev found_with :
      String
      → Option (Result (List String))
      → Option (Result (List String))
      → Option (Result (List String))
  found_with target none later = none
  found_with target (some (err e)) later = some (err e)
  found_with target (some (ok mods)) none = none
  found_with target (some (ok mods)) (some (err e)) = some (err e)
  found_with target (some (ok mods)) (some (ok found)) = some (ok (target ∷ (mods ++ found)))

  -- The loop over the calls, with the walk over a module that is called.
  unfoldable pub walk_calls :
      (String → Option (Result (List String)))
      → String
      → List String
      → Option (Result (List String))
  walk_calls walk path [] = some (ok [])
  walk_calls walk path (source ∷ sources) =
      let rest = walk_calls walk path sources in
      let target = path_join (path ∷ source ∷ []) in
      if is_local_path source then found_with target (walk target) rest else rest

  -- None where the fuel runs out.
  unfoldable pub walk : ℕ → String → Option (Result (List String))
  unfolding walk_calls
  walk zero path = none
  walk (suc fuel) path = elim (load_module path) [
    | err e ↦ some (err e)
    | ok sources ↦ walk_calls (walk fuel) path sources
  ]
