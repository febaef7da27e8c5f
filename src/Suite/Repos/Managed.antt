-- ===== src/Suite/Repos/Managed.antt =====
-- The entries of the clones: each stands under its commit, and a time that none is older than.
use etok.Base.{ℕ, ◌≤◌, ◌≡◌, refl, String, none, some, [], ◌∷◌, arith, eq_iff, All}
use etok.Base.Dict.{Dict, lookup, insert, erase, lookup-insert, lookup-erase}
use etok.Base.FilePath.{path_join}
use etok.Suite.Repos.{Repo}

-- Each clone stands under its commit, once, and lies in the directory of that commit.
abbrev pub IsManaged : String → Dict Repo → Type 0
IsManaged dir [] = Unit {0}
IsManaged dir ((sha, r) ∷ repos) =
    (r.sha ≡ sha)
    × (r.path ≡ path_join (dir ∷ sha ∷ []))
    × (lookup sha repos ≡ none)
    × IsManaged dir repos

pub insert-IsManaged :
    (dir sha : String) (r : Repo) (repos : Dict Repo)
    → r.sha ≡ sha
    → r.path ≡ path_join (dir ∷ sha ∷ [])
    → IsManaged dir repos
    → IsManaged dir (insert sha r repos)
unfolding insert lookup
insert-IsManaged dir sha r [] own place m = (own, place, refl, tt)
insert-IsManaged dir sha r ((key, old) ∷ repos) own place m = ground (
  arith,
  eq_iff key sha,
  eq_iff sha key,
  lookup-insert sha key r repos,
  insert-IsManaged dir sha r repos own place m.3,
)

pub erase-IsManaged :
    (dir sha : String) (repos : Dict Repo) → IsManaged dir repos → IsManaged dir (erase sha repos)
unfolding erase
erase-IsManaged dir sha [] m = tt
erase-IsManaged dir sha ((key, old) ∷ repos) m =
    ground (arith, lookup-erase sha key repos, erase-IsManaged dir sha repos m.3)

pub IsManaged-lookup :
    (dir sha : String) (repos : Dict Repo) {r : Repo}
    → IsManaged dir repos
    → lookup sha repos ≡ some r
    → (r.sha ≡ sha) × (r.path ≡ path_join (dir ∷ sha ∷ []))
unfolding lookup
IsManaged-lookup dir sha [] m h = cc
IsManaged-lookup dir sha ((key, old) ∷ repos) {r} m h =
    ground (arith, eq_iff key sha, IsManaged-lookup dir sha repos {r = r} m.3)

-- Every entry for a commit was asked for no earlier than a time.
abbrev pub IsFresh : String → ℕ → Dict Repo → Type 0
IsFresh sha from repos = All (λ e. e.1.sha ≡ sha → from ≤ e.1.last_cloned) repos

pub IsFresh-missing :
    (dir sha : String) (from : ℕ) (repos : Dict Repo)
    → IsManaged dir repos
    → lookup sha repos ≡ none
    → IsFresh sha from repos
unfolding lookup
IsFresh-missing dir sha from [] m h = tt
IsFresh-missing dir sha from ((key, r) ∷ repos) m h =
    ground (arith, eq_iff key sha, IsFresh-missing dir sha from repos m.3)

pub IsFresh-found :
    (dir sha : String) (from : ℕ) (repos : Dict Repo) (r : Repo)
    → IsManaged dir repos
    → lookup sha repos ≡ some r
    → from ≤ r.last_cloned
    → IsFresh sha from repos
unfolding lookup
IsFresh-found dir sha from [] r m h late = tt
IsFresh-found dir sha from ((key, old) ∷ repos) r m h late = ground (
  arith,
  eq_iff key sha,
  IsFresh-missing dir sha from repos m.3,
  IsFresh-found dir sha from repos r m.3,
)
