-- ===== src/Suite/Repos.antt =====
-- cmd/github/repo_manager.go and repo.go: the local clones and the reaper that deletes old ones.
-- The mutex makes each operation one step. Times are seconds.
pub mod Managed
pub mod Laws
use etok.Base.{ℕ, ◌+◌, String, ◌<>◌, Option, none, some, List, [], ◌∷◌, ltb, if◌then◌else◌}
use etok.Base.Dict.{Dict, lookup, insert, erase}
use etok.Base.FilePath.{path_join}
use etok.Api.Workspace.{Workspace}
use etok.Kube.{Error, Result, ok, err}
use etok.Kube.Effect.{Effect, Done, pure, lift, call, wrap, on_error, ◌>>=◌, ◌>>◌}

pub record Repo : Type 0 where
  pub url : String
  pub branch : String
  pub sha : String
  pub owner : String
  pub name : String
  pub path : String
  pub last_cloned : ℕ

unfoldable pub workspace_path : Repo → Workspace → String
workspace_path r ws = path_join (r.path ∷ ws.spec.vcs.working_dir ∷ [])

-- The clones by their commit.
pub record RepoManager : Type 0 where
  pub clone_dir : String
  pub managed : Dict Repo
  pub ttl : ℕ

unfoldable pub new_repo_manager : String → RepoManager
new_repo_manager clone_dir = record { clone_dir = clone_dir; managed = []; ttl = 3600 }

-- What a caller asks a clone for.
pub record Origin : Type 0 where
  pub url : String
  pub branch : String
  pub sha : String
  pub owner : String
  pub name : String
  pub install_id : ℕ

-- The file system, the provider of tokens, the parser of URLs, which answers the text of the URL
-- with a user and the text without the password, and git, run in a directory.
pub record Git (S : Type 0) : Type 0 where
  pub remove_all : String → S → Option Error × S
  pub make_dir : String → S → Option Error × S
  pub token : ℕ → String → S → Result String × S
  pub source : String → String → String → Result String
  pub redacted : String → String → String → String
  pub replace_all : String → String → String → String
  pub run_git : String → List String → S → Option Error × S

-- The manager beside the rest of the world.
pub record Machine (S : Type 0) : Type 0 where
  pub manager : RepoManager
  pub world : S

module _ {S : Type 0} where
  abbrev pub record_clone : String → RepoManager → Result Repo × S → Result Repo × Machine S
  record_clone sha m (err e, s) = (err e, record { manager = m; world = s })
  record_clone sha m (ok repo, s) =
      (ok repo, record { manager = record m { managed = insert sha repo m.managed }; world = s })

module _ {S : Type 0} (g : Git S) where
  unfoldable pub do_clone : String → ℕ → Origin → Effect S Repo
  do_clone clone_dir now o =
      let path = path_join (clone_dir ∷ o.sha ∷ []) in
      do
        wrap "unable to remove git repo" (call (g.remove_all path))
        wrap ("unable to make directory for repo: " <> path) (call (g.make_dir path))
        token ← g.token o.install_id "github.com"
        src ← wrap "unable to parse repo URL" (lift (g.source o.url "x-access-token" token))
        on_error (λ e. g.replace_all e src (g.redacted o.url "x-access-token" token))
            (call (
              g.run_git path (
                "clone" ∷ "--branch" ∷ o.branch ∷ "--depth=1" ∷ "--single-branch" ∷ src ∷ "."
                ∷ [])))
        pure (record {
          url = o.url;
          branch = o.branch;
          sha = o.sha;
          owner = o.owner;
          name = o.name;
          path = path;
          last_cloned = now;
        })

  abbrev pub clone_managed : ℕ → Origin → Option Repo → Effect (Machine S) Repo
  clone_managed now o (some found) w =
      let repo : Repo = record found { last_cloned = now } in
      (
        ok repo,
        record w { manager = record (w.manager) { managed = insert o.sha repo w.manager.managed } },
      )
  clone_managed now o none w =
      record_clone o.sha w.manager (do_clone w.manager.clone_dir now o w.world)

  -- A repository that is managed is used again, and its time starts anew.
  unfoldable pub clone : ℕ → Origin → Effect (Machine S) Repo
  unfolding do_clone
  clone now o w = clone_managed now o (lookup o.sha w.manager.managed) w

  -- The body of the reaper's loop. An error of the removal is ignored.
  unfoldable pub reap_repo : ℕ → Repo → Machine S → Machine S
  reap_repo now r w =
      if ltb (r.last_cloned + w.manager.ttl) now
      then record {
        manager = record (w.manager) { managed = erase r.sha w.manager.managed };
        world = (g.remove_all r.path w.world).1;
      }
      else w

  unfoldable pub reap_loop : ℕ → Dict Repo → Machine S → Machine S
  unfolding reap_repo
  reap_loop now [] w = w
  reap_loop now ((sha, r) ∷ repos) w = reap_loop now repos (reap_repo now r w)

  -- One tick of the reaper, at a time.
  unfoldable pub reap : ℕ → Machine S → Machine S
  unfolding reap_loop
  reap now w = reap_loop now w.manager.managed w
