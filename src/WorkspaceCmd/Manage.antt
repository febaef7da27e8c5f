-- ===== src/WorkspaceCmd/Manage.antt =====
-- cmd/workspace/workspace_select.go, workspace_list.go, workspace_delete.go and workspace_show.go
pub mod Laws
use etok.Base.{
  String, ◌<>◌, Bool, true, false, not, ◌&&◌, Option, none, some, List, [], ◌∷◌, ◌==◌,
  if◌then◌else◌,
}
use etok.Api.Workspace.{Workspace}
use etok.Kube
use etok.Kube.{Error, Get, Result, ok, err}
use etok.Kube.Effect.{Effect, Done, pure, lift, checked, fetch, wrap, call, fail_if, ◌>>=◌, ◌>>◌}
use etok.Env.{Env, string}
use etok.Env.File.{write_env, read_env}
use etok.GitRepo.{GitRepo}
use etok.WorkspaceCmd.{
  Shell, opened_repo, working_dir, repo_url, default_namespace, default_workspace,
}

abbrev dir_mismatch : String → Workspace → Error
dir_mismatch dir selected =
    "workspace working directory mismatch: '"
    <> (dir <> ("' (current) != '" <> (selected.spec.vcs.working_dir <> "' (selected)")))

abbrev repo_mismatch : String → Workspace → Error
repo_mismatch url selected =
    "workspace repository mismatch: '"
    <> (url <> ("' (current) != '" <> (selected.spec.vcs.repository <> "' (selected)")))

-- A line of the list: whether it is marked, and its text.
unfoldable pub list_loop : String → String → Env → List Workspace → List (Bool × String)
list_loop url dir current [] = []
list_loop url dir current (ws ∷ workspaces) =
    let rest = list_loop url dir current workspaces in
    if not (ws.spec.vcs.repository == url)
    then rest
    else if not (ws.spec.vcs.working_dir == dir)
    then rest
    else (
      ws.namespace == current.namespace && ws.name == current.workspace,
      string (record { namespace = ws.namespace; workspace = ws.name }),
    )
      ∷ rest

abbrev default_env : Env
default_env = record { namespace = default_namespace; workspace = default_workspace }

abbrev or_default : Option Env → Env
or_default none = default_env
or_default (some e) = e

module _ {S : Type 0} (sh : Shell S) where
  unfoldable pub select_cmd : String → String → String → Effect S String
  select_cmd path namespace name =
      let e : Env = record { namespace = namespace; workspace = name } in
      do
        repo ← opened_repo sh path
        checked sh.create_client
        selected ←
            wrap "unable to retrieve workspace resource" (fetch (sh.get_workspace namespace name))
        dir ← working_dir sh repo
        fail_if (not (selected.spec.vcs.working_dir == dir)) (dir_mismatch dir selected)
        url ← repo_url sh repo
        fail_if (not (selected.spec.vcs.repository == url)) (repo_mismatch url selected)
        write_env sh.files path e
        pure ("Current workspace now: " <> string e)

  -- The URL of the repository is read for the first workspace.
  listed : GitRepo → String → Env → List Workspace → Effect S (List (Bool × String))
  unfolding list_loop
  listed repo dir current [] = pure []
  listed repo dir current (ws ∷ workspaces) = do
    url ← repo_url sh repo
    pure (list_loop url dir current (ws ∷ workspaces))

  unfoldable pub list_cmd : String → Effect S (List (Bool × String))
  unfolding listed
  list_cmd path = do
    repo ← opened_repo sh path
    dir ← working_dir sh repo
    checked sh.create_client
    current ← checked (read_env sh.files path)
    workspaces ← checked sh.list_workspaces
    listed repo dir (or_default current) workspaces

  -- The condition of the poll of a delete.
  abbrev is_gone : Get Workspace → Result Bool
  is_gone Kube.Get.not_found = ok true
  is_gone (Kube.Get.failed e) = err ("waiting for workspace to be deleted: " <> e)
  is_gone (Kube.Get.found ws) = ok false

  unfoldable pub delete_cmd : String → String → Effect S String
  delete_cmd namespace name = do
    checked sh.create_client
    wrap "failed to delete workspace" (call (sh.delete_workspace namespace name))
    sh.poll (λ s. is_gone (sh.get_workspace namespace name s))
    pure ("Deleted workspace " <> (namespace <> ("/" <> name)))

  unfoldable pub show_cmd : String → Effect S String
  show_cmd path = do
    current ← wrap ("failed reading contents of " <> path) (checked (read_env sh.files path))
    pure (string (or_default current))
