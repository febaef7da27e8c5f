-- ===== src/Archive/Modules/Laws.antt =====
-- The walk finds all modules that a root module calls, and ends unless modules call each other in
-- a circle.
use etok.Base.{
  ==_refl, ◌⊎◌, subst, contains, ==_cases, inl, inr, ap, sym, ◌∙◌, ℕ, zero, suc, ◌<◌, ◌≡◌, ◌≢◌,
  refl, String, Bool, true, false, ◌||◌, Option, none, some, List, [], ◌∷◌, ◌++◌, arith,
  if◌then◌else◌, Bool-cases,
}
use etok.Base.FilePath.{path_join}
use etok.Kube.{Error, Result, ok, err}
use etok.Archive.Modules.{is_local_path, found_with, walk_calls, walk}

contains-append :
    (xs ys : List String) (s : String) → contains (xs ++ ys) s ≡ contains xs s || contains ys s
contains-append [] ys s = refl
contains-append (x ∷ xs) ys s = ground (arith, contains-append xs ys s)

module _ (load_module : String → Result (List String)) where
  -- Calls that lead from a module to others, each of them in the source of the module before it.
  abbrev pub IsChain : String → List String → Type 0
  IsChain path [] = Unit {0}
  IsChain path (source ∷ chain) =
      (sources : List String) × (load_module path ≡ ok sources)
      × (contains sources source ≡ true)
      × (is_local_path source ≡ true)
      × IsChain (path_join (path ∷ source ∷ [])) chain

  -- The module where a chain ends.
  abbrev pub follow : String → List String → String
  follow path [] = path
  follow path (source ∷ chain) = follow (path_join (path ∷ source ∷ [])) chain

  -- What a call adds to the result.
  abbrev HasCall : (String → Option (Result (List String))) → String → List String → Type 0
  HasCall w target found =
      (mods : List String) × (w target ≡ some (ok mods))
      × (contains found target ≡ true)
      × ((s : String) → contains mods s ≡ true → contains found s ≡ true)

  found_with-eq-ok :
      (target : String) (x y : Option (Result (List String))) {found : List String}
      → found_with load_module target x y ≡ some (ok found)
      → (mods rest : List String) × (x ≡ some (ok mods))
        × (y ≡ some (ok rest))
        × (found ≡ target ∷ (mods ++ rest))
  found_with-eq-ok target none y h = cc
  found_with-eq-ok target (some (err e)) y h = cc
  found_with-eq-ok target (some (ok mods)) none h = cc
  found_with-eq-ok target (some (ok mods)) (some (err e)) h = cc
  found_with-eq-ok target (some (ok mods)) (some (ok rest)) h = (mods, rest, refl, refl, cc)

  -- A call of another kind leaves the result as it is.
  call_cases :
      (is_local : Bool) (target : String) (x y : Option (Result (List String)))
      {found : List String}
      → (if is_local then found_with load_module target x y else y) ≡ some (ok found)
      → ((is_local ≡ false) × (y ≡ some (ok found)))
        ⊎ ((mods rest : List String) × (x ≡ some (ok mods))
            × (y ≡ some (ok rest))
            × (found ≡ target ∷ (mods ++ rest)))
  call_cases true target x y h = inr (found_with-eq-ok target x y h)
  call_cases false target x y h = inl (refl, h)

  HasCall-head :
      (w : String → Option (Result (List String))) (target : String) (mods rest : List String)
      → w target ≡ some (ok mods)
      → HasCall w target (target ∷ (mods ++ rest))
  HasCall-head w target mods rest walked = (
    mods,
    walked,
    ground (arith, ==_refl target),
    λ s within. ground (arith, contains-append mods rest s),
  )

  HasCall-tail :
      (w : String → Option (Result (List String))) (target other : String) (mods rest : List String)
      → HasCall w target rest
      → HasCall w target (other ∷ (mods ++ rest))
  HasCall-tail w target other mods rest (found, walked, own, all) = (
    found,
    walked,
    ground (arith, contains-append mods rest target),
    λ s within. ground (arith, contains-append mods rest s, all s within),
  )

  walk_calls-HasCall :
      (w : String → Option (Result (List String))) (path source : String) (sources : List String)
      {found : List String}
      → walk_calls load_module w path sources ≡ some (ok found)
      → contains sources source ≡ true
      → is_local_path source ≡ true
      → HasCall w (path_join (path ∷ source ∷ [])) found
  unfolding walk_calls
  walk_calls-HasCall w path source [] h within is_local = cc
  walk_calls-HasCall w path source (s ∷ sources) {found} h within is_local =
      let at_end =
        call_cases (is_local_path s) (path_join (path ∷ s ∷ [])) (w (path_join (path ∷ s ∷ [])))
          (walk_calls load_module w path sources) h in
      elim (==_cases s source) [
        | inl (_, same) ↦ elim at_end [
          | inl (foreign, _) ↦ absurd (ground arith)
          | inr (mods, rest, walked, _, all) ↦
              subst (λ x. HasCall w (path_join (path ∷ x ∷ [])) found) same
                (subst (λ x. HasCall w (path_join (path ∷ s ∷ [])) x) (sym all)
                  (HasCall-head w (path_join (path ∷ s ∷ [])) mods rest walked))
        ]
        | inr (differ, _) ↦
            let later : contains sources source ≡ true = ground arith in
            elim at_end [
              | inl (_, kept) ↦ walk_calls-HasCall w path source sources kept later is_local
              | inr (mods, rest, _, kept, all) ↦
                  subst (λ x. HasCall w (path_join (path ∷ source ∷ [])) x) (sym all)
                    (HasCall-tail w (path_join (path ∷ source ∷ [])) _ mods rest
                      (walk_calls-HasCall w path source sources kept later is_local))
            ]
      ]

  walk-ok :
      (fuel : ℕ) (path : String) (sources : List String)
      → load_module path ≡ ok sources
      → walk load_module (suc fuel) path
        ≡ walk_calls load_module (walk load_module fuel) path sources
  unfolding walk walk_calls
  walk-ok fuel path sources loaded = rw (walk, loaded) refl

  walk-err :
      (fuel : ℕ) (path : String) (e : Error)
      → load_module path ≡ err e
      → walk load_module (suc fuel) path ≡ some (err e)
  unfolding walk
  walk-err fuel path e loaded = rw (walk, loaded) refl

  -- When the walk answers, it has found every module that a chain of local calls leads to.
  pub walk_complete :
      (fuel : ℕ) (path source : String) (chain : List String) {found : List String}
      → walk load_module fuel path ≡ some (ok found)
      → IsChain path (source ∷ chain)
      → contains found (follow path (source ∷ chain)) ≡ true
  unfolding walk
  walk_complete zero path source chain h leads = cc
  walk_complete (suc fuel) path source [] {found} h (sources, loaded, called, is_local, leads) =
      (walk_calls-HasCall (walk load_module fuel) path source sources
        (sym (walk-ok fuel path sources loaded) ∙ h) called is_local).2
  walk_complete (suc fuel) path source (next ∷ chain) {found} h
        (sources, loaded, called, is_local, leads) =
      let (mods, walked, own, all) =
        walk_calls-HasCall (walk load_module fuel) path source sources
          (sym (walk-ok fuel path sources loaded) ∙ h) called is_local in
      all _ (walk_complete fuel _ next chain walked leads)

  -- A measure of modules that goes down along local calls, as there is one unless modules call each
  -- other in a circle.
  abbrev pub IsDescending : (String → ℕ) → Type 0
  IsDescending rank =
      (path source : String) (sources : List String)
      → load_module path ≡ ok sources
      → contains sources source ≡ true
      → is_local_path source ≡ true
      → rank (path_join (path ∷ source ∷ [])) < rank path

  found_with_total :
      (target : String) (x y : Result (List String))
      → (r : Result (List String)) × (found_with load_module target (some x) (some y) ≡ some r)
  found_with_total target (err e) y = (err e, refl)
  found_with_total target (ok mods) (err e) = (err e, refl)
  found_with_total target (ok mods) (ok rest) = (ok (target ∷ (mods ++ rest)), refl)

  walk_calls_total :
      (w : String → Option (Result (List String))) (path : String) (sources : List String)
      → ((source : String)
          → contains sources source ≡ true
          → is_local_path source ≡ true
          → (r : Result (List String)) × (w (path_join (path ∷ source ∷ [])) ≡ some r))
      → (r : Result (List String)) × (walk_calls load_module w path sources ≡ some r)
  unfolding walk_calls
  walk_calls_total w path [] each = (ok [], refl)
  walk_calls_total w path (s ∷ sources) each =
      let (y, later) =
        walk_calls_total w path sources
          (λ source called is_local. each source (ground arith) is_local) in
      elim (Bool-cases (is_local_path s)) [
        | inl is_local ↦
            let (x, walked) = each s (ground (arith, ==_refl s)) is_local in
            let (r, all) = found_with_total (path_join (path ∷ s ∷ [])) x y in
            (r, rw (is_local, walked, later) all)
        | inr foreign ↦ (y, rw foreign later)
      ]

  -- The walk ends: where there is a measure that goes down along local calls, as many levels as it
  -- has at the root module are enough.
  pub walk_total :
      (rank : String → ℕ) (fuel : ℕ) (path : String)
      → IsDescending rank
      → rank path < fuel
      → (r : Result (List String)) × (walk load_module fuel path ≡ some r)
  unfolding walk
  walk_total rank zero path down enough = absurd (omega arith)
  walk_total rank (suc fuel) path down enough =
      go (λ target h. walk_total rank fuel target down h) (load_module path) refl
    where
      go :
          ((target : String)
            → rank target < fuel
            → (r : Result (List String)) × (walk load_module fuel target ≡ some r))
          → (x : Result (List String)) → load_module path ≡ x
          → (r : Result (List String)) × (walk load_module (suc fuel) path ≡ some r)
      go deeper (err e) loaded = (err e, walk-err fuel path e loaded)
      go deeper (ok sources) loaded =
          let (r, all) =
            walk_calls_total (walk load_module fuel) path sources (λ source called is_local.
              deeper (path_join (path ∷ source ∷ []))
                (omega (arith, down path source sources loaded called is_local))) in
          (r, walk-ok fuel path sources loaded ∙ all)

  -- A module that calls itself: at no depth does the walk answer.
  pub walk_endless :
      (fuel : ℕ) (path source : String) (sources : List String)
      → load_module path ≡ ok sources
      → contains sources source ≡ true
      → is_local_path source ≡ true
      → path_join (path ∷ source ∷ []) ≡ path
      → (r : List String) → walk load_module fuel path ≢ some (ok r)
  unfolding walk
  walk_endless zero path source sources loaded called is_local circle r h = cc
  walk_endless (suc fuel) path source sources loaded called is_local circle r h =
      let (mods, walked, _, _) =
        walk_calls-HasCall (walk load_module fuel) path source sources
          (sym (walk-ok fuel path sources loaded) ∙ h) called is_local in
      walk_endless fuel path source sources loaded called is_local circle mods
        (ap (walk load_module fuel) (sym circle) ∙ walked)
