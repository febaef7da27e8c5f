-- ===== src/Tests/Commands.antt =====
-- The workspace commands and the archive, at concrete inputs.
use etok.Base.{
  ap, sym, inl, inr, ℕ, ◌<◌, ◌≤◌, ◌≡◌, refl, String, Bool, true, false, ◌&&◌, Option, none, some,
  List, [], ◌∷◌, arith, length, contains, ◌==◌, ==_cases, if◌then◌else◌, ◌∙◌, eq_iff,
}
use etok.Base.Text.{has_char}
use etok.Base.FilePath.{path_join, rel}
use etok.Api.Workspace.{Workspace}
use etok.Kube
use etok.Kube.{Error, Get, Result, ok, err}
use etok.Env.{string}
use etok.Env.File.{write_env, read_env, environment_file}
use etok.GitRepo.{GitRepo, opened, open_repo, root_module_relative_path, url}
use etok.WorkspaceCmd.{Shell, reached, timed_out}
use etok.WorkspaceCmd.Manage.{select_cmd}
use etok.WorkspaceCmd.Manage.Laws.{IsStored, select_cmd-read_env}
use etok.WorkspaceCmd.New.{new_workspace, NewOptions, new_cmd}
use etok.WorkspaceCmd.New.Laws.{IsServer, IsCleaned, new_cmd-fails}
use etok.Archive.Writer.{new_max_writer, write_all}
use etok.Archive.Writer.Laws.{joined, IsExceeded, write_all-bounds}
use etok.Archive.Modules.{walk, is_local_path}
use etok.Archive.Modules.Laws.{IsDescending, walk_complete, walk_total}
use etok.Tests.Data.{workspace, version}
use etok.Labels.{set_label, set_common_labels}

write_all-bounds_example :
    (length (joined ((1 ∷ 2 ∷ []) ∷ (3 ∷ []) ∷ [])) ≤ 2
      → write_all ((1 ∷ 2 ∷ []) ∷ (3 ∷ []) ∷ []) (new_max_writer 2)
        ≡ (ok 3, record { tally = 3; max = 2; written = 1 ∷ 2 ∷ 3 ∷ [] }))
    × (2 < length (joined ((1 ∷ 2 ∷ []) ∷ (3 ∷ []) ∷ []))
        → IsExceeded 2 (write_all ((1 ∷ 2 ∷ []) ∷ (3 ∷ []) ∷ []) (new_max_writer 2)))
write_all-bounds_example = write_all-bounds ((1 ∷ 2 ∷ []) ∷ (3 ∷ []) ∷ []) 2 (λ e. omega arith)

-- A root module that calls a module, which calls another.
abbrev modules : String → Result (List String)
modules path =
    if path == "/root"
    then ok ("registry/x" ∷ "./a" ∷ [])
    else if path == "/root/a"
    then ok ("../b" ∷ [])
    else ok []

walk_complete_example : contains ("/root/a" ∷ "/root/b" ∷ []) "/root/b" ≡ true
unfolding walk path_join is_local_path
walk_complete_example =
    walk_complete modules 3 "/root" "./a" ("../b" ∷ []) refl
      ("registry/x" ∷ "./a" ∷ [], refl, refl, refl, ("../b" ∷ [], refl, refl, refl, tt))

abbrev single : String → Result (List String)
single path = if path == "/root" then ok ("./a" ∷ []) else ok []

abbrev rank : String → ℕ
rank path = if path == "/root" then 1 else 0

abbrev listed : Result (List String) → List String
listed (ok sources) = sources
listed (err e) = []

single-IsDescending : IsDescending single rank
unfolding path_join
single-IsDescending path source sources loaded called is_local = elim (==_cases path "/root") [
  | inl (at_root, same) ↦ elim (==_cases source "./a") [
    | inl (_, eq) ↦ rw (same, eq) (omega arith)
    | inr (differ, _) ↦ absurd (missing (rw (at_root) at loaded) differ called)
  ]
  | inr (elsewhere, _) ↦ absurd (none_called (rw elsewhere at loaded) called)
]
  where
    missing :
        ◌≡◌ {A = Result (List String)} (ok ("./a" ∷ [])) (ok sources)
        → (source == "./a") ≡ false
        → contains sources source ≡ true
        → ⊥
    missing loaded differ called =
        let found : contains ("./a" ∷ []) source ≡ true =
          ap (λ xs. contains (listed xs) source) loaded ∙ called in
        ground (arith, eq_iff source "./a", eq_iff "./a" source)

    none_called :
        ◌≡◌ {A = Result (List String)} (ok []) (ok sources) → contains sources source ≡ true → ⊥
    none_called loaded called =
        let found : contains [] source ≡ true =
          ap (λ xs. contains (listed xs) source) loaded ∙ called in
        cc

walk_total_example : (r : Result (List String)) × (walk single 2 "/root" ≡ some r)
walk_total_example = walk_total single rank 2 "/root" single-IsDescending (omega arith)

-- A machine with one file and at most one workspace.
record Machine : Type 0 where
  file : String
  kept : Option Workspace

abbrev is_named : String → String → Workspace → Bool
is_named namespace name ws = ws.namespace == namespace && ws.name == name

abbrev got : String → String → Option Workspace → Get Workspace
got namespace name none = Kube.Get.not_found
got namespace name (some ws) =
    if is_named namespace name ws then Kube.Get.found ws else Kube.Get.not_found

abbrev made : Workspace → Option Workspace → Result Workspace
made ws none = ok ws
made ws (some old) = err "already exists"

abbrev first_of : Workspace → Option Workspace → Option Workspace
first_of ws none = some ws
first_of ws (some old) = some old

abbrev without : String → String → Option Workspace → Option Workspace
without namespace name none = none
without namespace name (some ws) = if is_named namespace name ws then none else some ws

abbrev here : Workspace
here = record workspace {
  spec = record (workspace.spec) {
    vcs = record { repository = "url"; branch = ""; working_dir = "module" };
  };
}

abbrev shell : Shell Machine
shell = record {
  files = record {
    make_dir = λ path s. (none, s);
    write_file = λ path content s. (none, record s { file = content });
    read_file = λ path s. Kube.Get.found s.file;
  };
  find_repo = λ path s. opened (record {
    path = path;
    worktree_root = some "/repo";
    remotes = some (record { name = "origin"; urls = "url" ∷ [] } ∷ []);
  });
  abs = λ s path. ok path;
  normalize = λ u. u;
  create_client = λ s. ok tt;
  get_workspace = λ namespace name s. got namespace name s.kept;
  list_workspaces = λ s. ok [];
  create_workspace = λ ws s. (made ws s.kept, record s { kept = first_of ws s.kept });
  delete_workspace = λ namespace name s. (none, record s { kept = without namespace name s.kept });
  wait_for_reconcile = λ ws s. timed_out;
  wait_for_ready = λ ws s. reached;
  wait_for_container = λ ws s. reached;
  stream = λ pod s. none;
  finishing_order = λ errors. errors;
  exit = λ pod s. some none;
  poll = λ test s. (ok tt, s);
}

shell-IsStored : IsStored (shell.files)
shell-IsStored path content s t h = ap (λ p. Kube.Get.found (p.1.file)) (sym h)

abbrev before : Machine
before = record { file = "a/b"; kept = some here }

abbrev checkout : GitRepo
checkout = record {
  path = "/repo/module";
  worktree_root = some "/repo";
  remotes = some (record { name = "origin"; urls = "url" ∷ [] } ∷ []);
}

select_cmd-read_env_example :
    (read_env (shell.files) "/repo/module" (record { file = "dev/ws"; kept = some here })
      ≡ ok (some (record { namespace = "dev"; workspace = "ws" })))
    × ((ws : Workspace) × (repo : GitRepo) × (shell.get_workspace "dev" "ws" before
          ≡ Kube.Get.found ws)
        × (open_repo (shell.find_repo "/repo/module" before) ≡ ok repo)
        × (root_module_relative_path (shell.abs before) repo ≡ some (ok ws.spec.vcs.working_dir))
        × (url shell.normalize repo ≡ some ws.spec.vcs.repository))
unfolding select_cmd environment_file has_char open_repo root_module_relative_path rel url write_env
    string
select_cmd-read_env_example =
    select_cmd-read_env shell "/repo/module" "dev" "ws" before shell-IsStored refl refl refl

shell-create-fails :
    (ws : Workspace) (s t : Machine) (k : Option Workspace) (e : Error) (namespace name : String)
    → s.kept ≡ k
    → ◌≡◌ {A = Result Workspace × Machine} (made ws k, record s { kept = first_of ws k }) (err e, t)
    → got namespace name t.kept ≡ got namespace name k
shell-create-fails ws s t none e namespace name held h = cc
shell-create-fails ws s t (some old) e namespace name held h =
    ap (λ p. got namespace name (p.1.kept)) (sym h)

shell-create-new :
    (ws ws' : Workspace) (s t : Machine) (k : Option Workspace) (namespace name : String)
    → ◌≡◌ {A = Result Workspace × Machine}
        (made ws k, record s { kept = first_of ws k })
        (ok ws', t)
    → got namespace name k ≡ Kube.Get.not_found
shell-create-new ws ws' s t none namespace name h = refl
shell-create-new ws ws' s t (some old) namespace name h = cc

shell-IsServer : IsServer shell
shell-IsServer = record {
  create-fails =
      λ ws s t e namespace name h. shell-create-fails ws s t s.kept e namespace name refl h;
  create-new = λ ws ws' s t h. shell-create-new ws ws' s t s.kept ws.namespace ws.name h;
}

abbrev options : NewOptions
options = record {
  path = "/repo/module";
  namespace = "dev";
  workspace = "ws";
  workspace_spec = workspace.spec;
  disable_resource_cleanup = false;
  verbosity = 0;
  status = none;
  variables = [];
  environment_variables = ("region", "eu") ∷ [];
  storage_class_passed = false;
}

abbrev empty : Machine
empty = record { file = "a/b"; kept = none }

-- The workspace is created, and deleted again when it is not reconciled in time.
new_cmd-fails_example : IsCleaned shell options empty empty
unfolding new_cmd open_repo root_module_relative_path rel url new_workspace set_label
    set_common_labels
new_cmd-fails_example =
    new_cmd-fails shell version options empty {t = empty}
      {e = "timed out waiting for workspace to be reconciled"} shell-IsServer refl refl
