-- ===== src/WorkspaceCmd/Manage/Laws.antt =====
-- A workspace that is selected is the one that the environment file names from then on.
use etok.Base.{
  ◌≡◌, refl, sym, ap, ◌∙◌, subst, String, false, not, Option, none, some, arith, eq_iff, ◌==◌,
}
use etok.Base.Text.{has_char}
use etok.Api.Workspace.{Workspace}
use etok.Kube
use etok.Kube.{Error, Get, Result, ok, err}
use etok.Kube.Effect.{
  Effect, Done, call, fetch, wrap, ◌>>=◌, >>=-eq-ok, lift-eq-ok, fail_if-eq-ok, call-eq-ok,
}
use etok.Env.{Env, string, read-string}
use etok.Env.File.{Files, environment_file, write_env, read_env, with_content}
use etok.GitRepo.{GitRepo, open_repo, root_module_relative_path, url}
use etok.WorkspaceCmd.{Shell, unless_panic, unless_absent}
use etok.WorkspaceCmd.Manage.{select_cmd}

-- What is written into a file is read from it.
abbrev pub IsStored : {S : Type 0} → Files S → Type 0
IsStored {S} f =
    (path content : String) (s t : S)
    → f.write_file path content s ≡ (none, t)
    → f.read_file path t ≡ Kube.Get.found content

-- The environment file that is written is read back, if its names have no slash.
read_env-write_env :
    {S : Type 0} (f : Files S) (path : String) (e : Env) (s : S) {t : S} {unit : Done}
    → IsStored f
    → has_char b'/' e.namespace ≡ false
    → has_char b'/' e.workspace ≡ false
    → write_env f path e s ≡ (ok unit, t)
    → read_env f path t ≡ ok (some e)
unfolding write_env read_env
read_env-write_env f path e s {t} stored n w h =
    let (_, u, made, later) = >>=-eq-ok (call (f.make_dir _)) _ s h in
    let wrote = call-eq-ok (f.write_file (environment_file path) (string e) u) u later in
    let back = stored (environment_file path) (string e) u t wrote in
    ap (with_content f (environment_file path)) back ∙ rw (with_content, read-string e n w) refl

eq_of_not : (a b : String) → not (a == b) ≡ false → a ≡ b
eq_of_not a b h = ground (arith, eq_iff a b)

unless_panic-eq-ok :
    {S A B : Type 0} (r : Option (Result A)) (f : A → Effect S B) (s : S) {b : B} {t : S}
    → (unless_panic r >>= f) s ≡ (ok b, t)
    → (a : A) × (r ≡ some (ok a)) × (f a s ≡ (ok b, t))
unless_panic-eq-ok none f s h = cc
unless_panic-eq-ok (some (err e)) f s h = cc
unless_panic-eq-ok (some (ok a)) f s h = (a, refl, h)

unless_absent-eq-ok :
    {S A B : Type 0} (r : Option A) (f : A → Effect S B) (s : S) {b : B} {t : S}
    → (unless_absent r >>= f) s ≡ (ok b, t)
    → (a : A) × (r ≡ some a) × (f a s ≡ (ok b, t))
unless_absent-eq-ok none f s h = cc
unless_absent-eq-ok (some a) f s h = (a, refl, h)

fetch-eq-ok :
    {S A B : Type 0} (text : String) (g : Get A) (f : A → Effect S B) (s : S) {b : B} {t : S}
    → (wrap text (fetch (λ _. g)) >>= f) s ≡ (ok b, t)
    → (a : A) × (g ≡ Kube.Get.found a) × (f a s ≡ (ok b, t))
fetch-eq-ok text (Kube.Get.found a) f s h = (a, refl, h)
fetch-eq-ok text Kube.Get.not_found f s h = cc
fetch-eq-ok text (Kube.Get.failed e) f s h = cc

-- When a selection ends well, the workspace exists and belongs to the repository and the root
-- module that the path is in, and the environment file that is read from then on names it, if
-- what is written into a file is read from it and the names have no slash.
pub select_cmd-read_env :
    {S : Type 0} (sh : Shell S) (path namespace name : String) (s : S) {t : S} {text : String}
    → IsStored sh.files
    → has_char b'/' namespace ≡ false
    → has_char b'/' name ≡ false
    → select_cmd sh path namespace name s ≡ (ok text, t)
    → (read_env sh.files path t ≡ ok (some (record { namespace = namespace; workspace = name })))
      × ((ws : Workspace) × (repo : GitRepo) × (sh.get_workspace namespace name s
            ≡ Kube.Get.found ws)
          × (open_repo (sh.find_repo path s) ≡ ok repo)
          × (root_module_relative_path (sh.abs s) repo ≡ some (ok ws.spec.vcs.working_dir))
          × (url sh.normalize repo ≡ some ws.spec.vcs.repository))
unfolding select_cmd
select_cmd-read_env sh path namespace name s {t} stored n w h =
    let (repo, opened, h1) = lift-eq-ok (open_repo (sh.find_repo path s)) _ s h in
    let (_, client, h2) = lift-eq-ok (sh.create_client s) _ s h1 in
    let (ws, got, h3) = fetch-eq-ok _ (sh.get_workspace namespace name s) _ s h2 in
    let (dir, place, h4) = unless_panic-eq-ok (root_module_relative_path (sh.abs s) repo) _ s h3 in
    let (same_dir, h5) = fail_if-eq-ok (not (ws.spec.vcs.working_dir == dir)) _ _ s h4 in
    let (u, link, h6) = unless_absent-eq-ok (url sh.normalize repo) _ s h5 in
    let (same_url, h7) = fail_if-eq-ok (not (ws.spec.vcs.repository == u)) _ _ s h6 in
    let (_, v, wrote, h8) = >>=-eq-ok (write_env sh.files path _) _ s h7 in
    (
      subst
          (λ x.
            read_env sh.files path x
            ≡ ok (some (record { namespace = namespace; workspace = name })))
          (ap (λ p. p.1) h8) (read_env-write_env sh.files path _ s stored n w wrote),
      (
        ws,
        repo,
        got,
        opened,
        place ∙ ap (λ d. some (ok d)) (sym (eq_of_not ws.spec.vcs.working_dir dir same_dir)),
        link ∙ ap (λ l. some l) (sym (eq_of_not ws.spec.vcs.repository u same_url)),
      ),
    )
