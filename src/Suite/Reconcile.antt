-- ===== src/Suite/Reconcile.antt =====
-- cmd/github/check_suite_controller.go
pub mod Laws
use etok.Base.{ℕ, String, Option, none, some, List, [], ◌∷◌, ◌==◌, if◌then◌else◌}
use etok.Api.Meta.{ObjectMeta}
use etok.Api.Workspace.{Workspace}
use etok.Kube.{Error, Get, Result, ok, err}
use etok.Kube.Effect.{Effect, Done, pure, fetch, find, checked, lift, call, each, ◌>>=◌, ◌>>◌}
use etok.CheckRun.{CheckRun, CheckSuite}
use etok.Suite
use etok.Suite.{in_namespace, of_suite, of_workspace, build, with_repo_path}
use etok.Suite.Repos.{Repo, Origin, Git, Machine, clone}

-- The client of the reconciler. A write of the status answers the object of the server.
pub record SuiteClient (S : Type 0) : Type 0 where
  pub get_check_suite : String → S → Get CheckSuite
  pub list_workspaces : S → Result (List Workspace)
  pub update_suite_status : CheckSuite → S → Result CheckSuite × S
  pub set_suite_owner : CheckSuite → ObjectMeta → Result ObjectMeta
  pub get_check_run : String → String → S → Get CheckRun
  pub create_check_run : CheckRun → S → Option Error × S

-- The workspaces whose repository is the one of the suite.
unfoldable pub connected : CheckSuite → List Workspace → List Workspace
connected suite [] = []
connected suite (ws ∷ workspaces) =
    let rest = connected suite workspaces in
    if ws.spec.vcs.repository == suite.spec.clone_url then ws ∷ rest else rest

-- The check run of a workspace before it has an owner.
unfoldable pub check_for : CheckSuite → Workspace → CheckRun
check_for suite ws = build (
    of_workspace ws.name
      (of_suite suite.spec.id suite.spec.rerequests (in_namespace ws.namespace Suite.check_run)))

abbrev pub origin : CheckSuite → Origin
origin suite = record {
  url = suite.spec.clone_url;
  branch = suite.spec.branch;
  sha = suite.spec.sha;
  owner = suite.spec.owner;
  name = suite.spec.repo;
  install_id = suite.spec.install_id;
}

module _ {S A : Type 0} where
  -- A call that leaves the manager of repositories alone.
  abbrev pub outside : Effect S A → Effect (Machine S) A
  outside m w = let (r, s) = m w.world in (r, record w { world = s })

module _ {S : Type 0} (c : SuiteClient S) where
  abbrev pub created : CheckRun → Option CheckRun → Effect S Done
  created check (some existing) = pure tt
  created check none = call (c.create_check_run check)

  -- The body of the second loop.
  unfoldable pub ensure_check : CheckSuite → Workspace → Effect S Done
  ensure_check suite ws =
      let check = check_for suite ws in
      do
        meta ← lift (c.set_suite_owner suite check.metadata)
        existing ← find (c.get_check_run meta.namespace meta.name)
        created (record check { metadata = meta }) existing

  -- What is done for the connected workspaces, with the suite that the server answered.
  ensure_checks : List Workspace → CheckSuite → Effect S Done
  unfolding ensure_check
  ensure_checks workspaces suite = do
    each (ensure_check suite) workspaces
    c.update_suite_status suite
    pure tt

  with_repo : CheckSuite → List Workspace → Repo → Effect S Done
  unfolding ensure_checks
  with_repo suite workspaces repo = do
    suite' ← c.update_suite_status (with_repo_path repo.path suite)
    ensure_checks workspaces suite'

  module _ (g : Git S) (now : ℕ) where
    with_connected : CheckSuite → List Workspace → Effect (Machine S) Done
    unfolding with_repo
    with_connected suite [] = pure tt
    with_connected suite (ws ∷ workspaces) = do
      repo ← clone g now (origin suite)
      outside (with_repo suite (ws ∷ workspaces) repo)

    with_suite : CheckSuite → Effect (Machine S) Done
    unfolding with_connected connected
    with_suite suite = do
      workspaces ← outside (checked c.list_workspaces)
      with_connected suite (connected suite workspaces)

    abbrev found : Option CheckSuite → Effect (Machine S) Done
    unfolding with_suite
    found none = pure tt
    found (some suite) = with_suite suite

    unfoldable pub reconcile : String → Effect (Machine S) Done
    unfolding with_suite
    reconcile name = do suite ← outside (find (c.get_check_suite name)); found suite
