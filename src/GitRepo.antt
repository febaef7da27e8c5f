-- ===== src/GitRepo.antt =====
-- pkg/repo/repo.go: the git repository of a command line. A panic is none.
use etok.Base.{String, ◌<>◌, Option, none, some, List, [], ◌∷◌, ◌==◌, if◌then◌else◌}
use etok.Base.FilePath.{rel}
use etok.Kube.{Error, Result, ok, err}

pub record Remote : Type 0 where
  pub name : String
  pub urls : List String

-- What the git library tells of a repository: the root of its work tree, and its remotes; none is an
-- error of the library.
pub record GitRepo : Type 0 where
  pub path : String
  pub worktree_root : Option String
  pub remotes : Option (List Remote)

pub data OpenError : Type 0 where
  not_exists : OpenError
  open_error : Error → OpenError

pub data Opened : Type 0 where
  opened : GitRepo → Opened
  not_opened : OpenError → Opened

unfoldable pub open_repo : Opened → Result GitRepo
open_repo (opened repo) = ok repo
open_repo (not_opened not_exists) = err "repository not found: path must be within a git repository"
open_repo (not_opened (open_error e)) = err e

-- filepath.Rel of the root and the absolute path, which the working directory gives.
abbrev relative : Result String → String → Option (Result String)
relative (err e) root = some (err ("unable to calculate absolute path: " <> e))
relative (ok path) root =
    some (elim (rel root path) [ none ↦ err "unable to calculate relative path" | some wd ↦ ok wd ])

unfoldable pub root_module_relative_path :
    (String → Result String) → GitRepo → Option (Result String)
root_module_relative_path abs repo = elim (abs repo.path) [
  | err e ↦ relative (err e) ""
  | ok path ↦ elim (repo.worktree_root) [ none ↦ none | some root ↦ relative (ok path) root ]
]

-- `remote.Config().URLs[0]`
abbrev first_url : (String → String) → Remote → Option String
first_url normalize remote = elim (remote.urls) [ [] ↦ none | u ∷ us ↦ some (normalize u) ]

find_origin : List Remote → Option Remote
find_origin [] = none
find_origin (remote ∷ remotes) =
    let rest = find_origin remotes in if remote.name == "origin" then some remote else rest

abbrev chosen : (String → String) → Option Remote → Remote → Option String
chosen normalize (some origin) first = first_url normalize origin
chosen normalize none first = first_url normalize first

abbrev url_of : (String → String) → List Remote → Option String
unfolding find_origin
url_of normalize [] = some ""
url_of normalize (remote ∷ remotes) = chosen normalize (find_origin (remote ∷ remotes)) remote

-- The regular expression that rewrites a URL is a parameter.
unfoldable pub url : (String → String) → GitRepo → Option String
unfolding find_origin
url normalize repo = elim (repo.remotes) [ none ↦ none | some remotes ↦ url_of normalize remotes ]

urls_of : (String → String) → List Remote → List String
urls_of normalize [] = []
urls_of normalize (remote ∷ remotes) =
    let rest = urls_of normalize remotes in
    elim (remote.urls) [ [] ↦ rest | u ∷ us ↦ normalize u ∷ rest ]

unfoldable pub urls : (String → String) → GitRepo → Option (List String)
unfolding urls_of
urls normalize repo = elim (repo.remotes) [
  | none ↦ none
  | some remotes ↦ some (urls_of normalize remotes)
]
