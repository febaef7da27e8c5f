-- ===== src/Paths.antt =====
-- pkg/util/path/path.go: the removal of nested paths, and absolute and relative paths.
pub mod Laws
use text.Mathlib.Text.{starts_with}
use etok.Base.{String, Bool, List, [], ◌∷◌, ◌++◌, ◌==◌, if◌then◌else◌, Option, none, some, ◌<>◌}
use etok.Base.FilePath.{is_abs, rel}
use etok.Kube.{Result, ok, err}

-- The loop of `updateUnnested`: it returns the whole list at a path that is equal to the candidate
-- or nests it, and otherwise what it has kept.
unfoldable pub unnested_loop : String → List String → List String → List String → List String
unnested_loop c whole [] updated = updated ++ (c ∷ [])
unnested_loop c whole (p ∷ paths) updated =
    let skipped = unnested_loop c whole paths updated in
    let kept = unnested_loop c whole paths (updated ++ (p ∷ [])) in
    if c == p
    then whole ++ (p ∷ [])
    else if starts_with c p
    then whole
    else if starts_with p c
    then skipped
    else kept

unfoldable pub update_unnested : String → List String → List String
unfolding unnested_loop
update_unnested c paths = unnested_loop c paths paths []

unnest_all : List String → List String → List String
unfolding update_unnested
unnest_all [] unnested = unnested
unnest_all (p ∷ paths) unnested = unnest_all paths (update_unnested p unnested)

unfoldable pub remove_nested_paths : List String → List String
unfolding unnest_all
remove_nested_paths paths = unnest_all paths []

-- filepath.Abs is a parameter: it asks for the working directory.
unfoldable pub ensure_abs : (String → Result String) → String → Result String
ensure_abs abs path = if is_abs path then ok path else abs path

-- The first error ends the loop over the paths.
abbrev and_rest : Result String → Result (List String) → Result (List String)
and_rest (err e) rest = err e
and_rest (ok path) (err e) = err e
and_rest (ok path) (ok paths) = ok (path ∷ paths)

unfoldable pub ensure_all_abs : (String → Result String) → List String → Result (List String)
unfolding ensure_abs
ensure_all_abs abs [] = ok []
ensure_all_abs abs (p ∷ paths) = and_rest (ensure_abs abs p) (ensure_all_abs abs paths)

abbrev relative_to : String → String → Result String
relative_to wd path = elim (rel wd path) [
  | none ↦ err ("Rel: can't make " <> (path <> (" relative to " <> wd)))
  | some p ↦ ok p
]

relative_loop : String → List String → Result (List String)
relative_loop wd [] = ok []
relative_loop wd (p ∷ paths) = and_rest (relative_to wd p) (relative_loop wd paths)

unfoldable pub rel_to_working_dir : Result String → List String → Result (List String)
unfolding relative_loop
rel_to_working_dir (err e) paths = err e
rel_to_working_dir (ok wd) paths = relative_loop wd paths
