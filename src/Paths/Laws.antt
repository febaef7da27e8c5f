-- ===== src/Paths/Laws.antt =====
-- What the removal of nested paths leaves.
use text.Mathlib.Text.{starts_with}
use text.Mathlib.TextEquality.{starts_with_iff}
use text.Mathlib.TextLemmas.{append_assoc, append-nil}
use etok.Base.{
  String, ◌<>◌, ◌≡◌, refl, sym, ap, ◌∙◌, ◌⊎◌, inl, inr, ℕ, zero, suc, get_elem?, some, Bool, true,
  false, ◌||◌, List, [], ◌∷◌, ◌++◌, arith, eq_iff, any, Bool-cases,
}
use etok.Paths.{unnested_loop, update_unnested, unnest_all, remove_nested_paths}

starts_with_trans :
    (a b c : String) → starts_with a b ≡ true → starts_with b c ≡ true → starts_with a c ≡ true
starts_with_trans a b c h g =
    let (u, e) = (starts_with_iff a b).0 h in
    let (v, f) = (starts_with_iff b c).0 g in
    (starts_with_iff a c).1 (v <> u, sym (append_assoc c v u) ∙ ap (λ t. t <> u) f ∙ e)

starts_with_refl : (a : String) → starts_with a a ≡ true
starts_with_refl a = (starts_with_iff a a).1 ("", append-nil a)

-- Whether a path is, or is nested in, one of a list.
abbrev pub is_covered : String → List String → Bool
is_covered p paths = any (λ q. starts_with p q) paths

is_covered-append :
    (p : String) (xs ys : List String)
    → is_covered p (xs ++ ys) ≡ (is_covered p xs || is_covered p ys)
is_covered-append p [] ys = refl
is_covered-append p (x ∷ xs) ys = ground (arith, is_covered-append p xs ys)

-- What covers `p` is itself nested in `c`: then `c` covers `p`.
unnested_loop-covers :
    (p c : String) (whole paths updated : List String)
    → is_covered p whole ≡ true
    → (is_covered p paths || is_covered p updated || starts_with p c) ≡ true
    → is_covered p (unnested_loop c whole paths updated) ≡ true
unfolding unnested_loop
unnested_loop-covers p c whole [] updated w h = ground (arith, is_covered-append p updated (c ∷ []))
unnested_loop-covers p c whole (q ∷ paths) updated w h =
    let skipped = unnested_loop-covers p c whole paths updated w in
    let kept = unnested_loop-covers p c whole paths (updated ++ (q ∷ [])) w in
    ground (
      arith,
      skipped,
      kept,
      is_covered-append p whole (q ∷ []),
      is_covered-append p updated (q ∷ []),
      starts_with_trans p q c,
    )

unnested_loop-candidate :
    (c : String) (whole paths updated : List String)
    → (is_covered c paths ≡ false) ⊎ (is_covered c whole ≡ true)
    → is_covered c (unnested_loop c whole paths updated) ≡ true
unfolding unnested_loop
unnested_loop-candidate c whole [] updated h =
    ground (arith, is_covered-append c updated (c ∷ []), starts_with_refl c)
unnested_loop-candidate c whole (q ∷ paths) updated h =
    let skipped = unnested_loop-candidate c whole paths updated in
    let kept = unnested_loop-candidate c whole paths (updated ++ (q ∷ [])) in
    ground
      (arith, skipped, kept, is_covered-append c whole (q ∷ []), starts_with_refl c, eq_iff c q)

update_unnested-covers :
    (p c : String) (paths : List String)
    → is_covered p paths ≡ true
    → is_covered p (update_unnested c paths) ≡ true
unfolding update_unnested
update_unnested-covers p c paths h = unnested_loop-covers p c paths paths [] h (ground (arith, h))

update_unnested-candidate :
    (c : String) (paths : List String) → is_covered c (update_unnested c paths) ≡ true
unfolding update_unnested
update_unnested-candidate c paths = elim (Bool-cases (is_covered c paths)) [
  | inl covered ↦ unnested_loop-candidate c paths paths [] (inr covered)
  | inr uncovered ↦ unnested_loop-candidate c paths paths [] (inl uncovered)
]

unnest_all-covers :
    (p : String) (paths unnested : List String)
    → is_covered p unnested ≡ true
    → is_covered p (unnest_all paths unnested) ≡ true
unfolding unnest_all
unnest_all-covers p [] unnested h = h
unnest_all-covers p (c ∷ paths) unnested h =
    unnest_all-covers p paths (update_unnested c unnested) (update_unnested-covers p c unnested h)

unnest_all-paths :
    (paths unnested : List String) (i : ℕ) (p : String)
    → get_elem? paths i ≡ some p
    → is_covered p (unnest_all paths unnested) ≡ true
unfolding unnest_all
unnest_all-paths [] unnested i p h = cc
unnest_all-paths (c ∷ paths) unnested zero p h =
    unnest_all-covers p paths (update_unnested c unnested)
      (let same : c ≡ p = ground arith in rw same (update_unnested-candidate p unnested))
unnest_all-paths (c ∷ paths) unnested (suc i) p h =
    unnest_all-paths paths (update_unnested c unnested) i p h

-- Every path is kept by `RemoveNestedPaths`, or one of those kept is a prefix of it.
pub remove_nested_paths-covers :
    (paths : List String) (i : ℕ) (p : String)
    → get_elem? paths i ≡ some p
    → is_covered p (remove_nested_paths paths) ≡ true
unfolding remove_nested_paths
remove_nested_paths-covers paths i p h = unnest_all-paths paths [] i p h
