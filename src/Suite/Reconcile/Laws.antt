-- ===== src/Suite/Reconcile/Laws.antt =====
-- What a reconcile of a check suite that ends well leaves behind.
use etok.Base.{subst, ℕ, ◌≡◌, refl, sym, ap, ◌∙◌, String, Option, none, some, List, [], ◌∷◌, All}
use etok.Api.Meta.{ObjectMeta}
use etok.Api.Workspace.{Workspace}
use etok.Kube
use etok.Kube.{Error, Get, Result, ok, err}
use etok.Kube.Effect.{pure, find, lift, call, ◌>>=◌, ◌>>◌, Done, each, >>=-eq-ok}
use etok.CheckRun.{CheckRun, CheckSuite}
use etok.Suite.{with_repo_path, check_run_name, build, of_workspace, of_suite, in_namespace}
use etok.Suite.Repos.{Repo, Git, Machine, clone}
use etok.Suite.Reconcile.{
  SuiteClient, connected, check_for, created, ensure_check, ensure_checks, with_repo,
  with_connected, with_suite, reconcile, origin,
}

module _ {S : Type 0} (c : SuiteClient S) where
  -- A check run can be read.
  abbrev pub HasCheck : String → String → S → Type 0
  HasCheck namespace name s =
      (cr : CheckRun) × (c.get_check_run namespace name s ≡ Kube.Get.found cr)

  -- What the API server does: an object that was created can be read, writes of other objects do not
  -- take it away, the answer to a write of a status has the specification that was there, and an
  -- owner changes neither name nor namespace.
  pub record IsServer : Type 0 where
    pub create-found :
        (cr : CheckRun) (s t : S)
        → c.create_check_run cr s ≡ (none, t)
        → HasCheck cr.namespace cr.name t
    pub create-keeps :
        (cr : CheckRun) (s : S) (namespace name : String)
        → HasCheck namespace name s
        → HasCheck namespace name (c.create_check_run cr s).1
    pub status-keeps :
        (suite : CheckSuite) (s : S) (namespace name : String)
        → HasCheck namespace name s
        → HasCheck namespace name (c.update_suite_status suite s).1
    pub status-spec :
        (suite suite' : CheckSuite) (s t : S)
        → c.update_suite_status suite s ≡ (ok suite', t)
        → suite'.spec ≡ suite.spec
    pub owner-name :
        (suite : CheckSuite) (meta meta' : ObjectMeta)
        → c.set_suite_owner suite meta ≡ ok meta'
        → (meta'.name ≡ meta.name) × (meta'.namespace ≡ meta.namespace)

  -- The check run that a workspace gets for a suite.
  abbrev pub IsChecked : CheckSuite → S → Workspace → Type 0
  IsChecked suite s ws =
      HasCheck ws.namespace (check_run_name suite.spec.id suite.spec.rerequests ws.name) s

  written-HasCheck :
      (i : IsServer) (cr : CheckRun) (s : S) {t : S} (x : Option Error × S)
      → c.create_check_run cr s ≡ x
      → call (λ _. x) s ≡ (ok tt, t)
      → HasCheck cr.namespace cr.name t
  written-HasCheck i cr s (some e, u) wrote h = cc
  written-HasCheck i cr s {t} (none, u) wrote h =
      i.create-found cr s t (wrote ∙ ap (λ v. (none, v)) (cc))

  created-HasCheck :
      (i : IsServer) (cr : CheckRun) (s : S) {t : S} (x : Get CheckRun)
      → c.get_check_run cr.namespace cr.name s ≡ x
      → (find (λ _. x) >>= λ existing. created c cr existing) s ≡ (ok tt, t)
      → HasCheck cr.namespace cr.name t
  created-HasCheck i cr s (Kube.Get.found old) read h =
      (old, ap (λ v. c.get_check_run cr.namespace cr.name v) (sym (ap (λ p. p.1) h)) ∙ read)
  created-HasCheck i cr s Kube.Get.not_found read h =
      written-HasCheck i cr s (c.create_check_run cr s) refl h
  created-HasCheck i cr s (Kube.Get.failed e) read h = cc

  ensure_check-IsChecked :
      (i : IsServer) (suite : CheckSuite) (ws : Workspace) (s : S) {t : S}
      → ensure_check c suite ws s ≡ (ok tt, t)
      → IsChecked suite t ws
  unfolding ensure_check check_for build of_workspace of_suite in_namespace
  ensure_check-IsChecked i suite ws s {t} h =
      go (c.set_suite_owner suite (check_for suite ws).metadata) refl h
    where
      go :
          (x : Result ObjectMeta)
          → c.set_suite_owner suite (check_for suite ws).metadata ≡ x
          → (lift x >>= λ meta. find (c.get_check_run meta.namespace meta.name) >>= λ existing.
                created c (record (check_for suite ws) { metadata = meta }) existing)
              s
            ≡ (ok tt, t)
          → IsChecked suite t ws
      go (err e) owned h = cc
      go (ok meta) owned h =
          let (name, namespace) = i.owner-name suite (check_for suite ws).metadata meta owned in
          rw (← namespace, ← name)
            (created-HasCheck i (record (check_for suite ws) { metadata = meta }) s
              (c.get_check_run meta.namespace meta.name s) refl h)

  created-keeps :
      (i : IsServer) (cr : CheckRun) (x : Get CheckRun) (s : S) (namespace name : String)
      → HasCheck namespace name s
      → HasCheck namespace name ((find (λ _. x) >>= λ existing. created c cr existing) s).1
  created-keeps i cr (Kube.Get.found old) s namespace name h = h
  created-keeps i cr Kube.Get.not_found s namespace name h = i.create-keeps cr s namespace name h
  created-keeps i cr (Kube.Get.failed e) s namespace name h = h

  ensure_check-keeps :
      (i : IsServer) (suite : CheckSuite) (ws : Workspace) (s : S) (namespace name : String)
      → HasCheck namespace name s
      → HasCheck namespace name (ensure_check c suite ws s).1
  unfolding ensure_check
  ensure_check-keeps i suite ws s namespace name h =
      go (c.set_suite_owner suite (check_for suite ws).metadata)
    where
      go :
          (x : Result ObjectMeta)
          → HasCheck namespace name
              ((lift x >>= λ meta. find (c.get_check_run meta.namespace meta.name) >>= λ existing.
                  created c (record (check_for suite ws) { metadata = meta }) existing)
                s).1
      go (err e) = h
      go (ok meta) =
          created-keeps i (record (check_for suite ws) { metadata = meta })
            (c.get_check_run meta.namespace meta.name s) s namespace name h

  each-keeps :
      (i : IsServer) (suite : CheckSuite) (workspaces : List Workspace) (s : S)
      (namespace name : String)
      → HasCheck namespace name s
      → HasCheck namespace name (each (ensure_check c suite) workspaces s).1
  unfolding each
  each-keeps i suite [] s namespace name h = h
  each-keeps i suite (ws ∷ workspaces) s namespace name h =
      go (each-keeps i suite workspaces) (ensure_check c suite ws s)
        (ensure_check-keeps i suite ws s namespace name h)
    where
      go :
          ((u : S) (namespace name : String)
            → HasCheck namespace name u
            → HasCheck namespace name (each (ensure_check c suite) workspaces u).1)
          → (x : Result Done × S) → HasCheck namespace name x.1
          → HasCheck namespace name (((λ _. x) >> each (ensure_check c suite) workspaces) s).1
      go later (err e, t) kept = kept
      go later (ok unit, t) kept = later t namespace name kept

  each-IsChecked :
      (i : IsServer) (suite : CheckSuite) (workspaces : List Workspace) (s : S) {t : S}
      → each (ensure_check c suite) workspaces s ≡ (ok tt, t)
      → All (IsChecked suite t) workspaces
  unfolding each
  each-IsChecked i suite [] s h = tt
  each-IsChecked i suite (ws ∷ workspaces) s {t} h =
      go (λ u e. each-IsChecked i suite workspaces u e) (ensure_check c suite ws s) refl h
    where
      go :
          ((u : S)
            → each (ensure_check c suite) workspaces u ≡ (ok tt, t)
            → All (IsChecked suite t) workspaces)
          → (x : Result Done × S) → ensure_check c suite ws s ≡ x
          → ((λ _. x) >> each (ensure_check c suite) workspaces) s ≡ (ok tt, t)
          → IsChecked suite t ws × All (IsChecked suite t) workspaces
      go later (err e, u) first h = cc
      go later (ok unit, u) first h =
          let now = ensure_check-IsChecked i suite ws s first in
          let kept = each-keeps i suite workspaces u ws.namespace _ now in
          (
            (
              kept.0,
              ap
                    (λ p.
                      c.get_check_run ws.namespace
                        (check_run_name suite.spec.id suite.spec.rerequests ws.name) p.1)
                    (sym h)
                  ∙ kept.1,
            ),
            later u h,
          )

  All-status :
      (i : IsServer) (suite suite' : CheckSuite) (workspaces : List Workspace) (s : S)
      → All (IsChecked suite s) workspaces
      → All (IsChecked suite (c.update_suite_status suite' s).1) workspaces
  All-status i suite suite' [] s h = tt
  All-status i suite suite' (ws ∷ workspaces) s h =
      (i.status-keeps suite' s ws.namespace _ h.0, All-status i suite suite' workspaces s h.1)

  ensure_checks-IsChecked :
      (i : IsServer) (suite : CheckSuite) (workspaces : List Workspace) (s : S) {t : S}
      → ensure_checks c workspaces suite s ≡ (ok tt, t)
      → All (IsChecked suite t) workspaces
  unfolding ensure_checks
  ensure_checks-IsChecked i suite workspaces s {t} h =
      let (_, u, first, later) = >>=-eq-ok (each (ensure_check c suite) workspaces) _ s h in
      let (_, v, wrote, same) = >>=-eq-ok (c.update_suite_status suite) (λ _. pure tt) u later in
      let here : (c.update_suite_status suite u).1 ≡ t = ap (λ p. p.1) wrote ∙ ap (λ p. p.1) same in
      subst (λ x. All (IsChecked suite x) workspaces) here
        (All-status i suite suite workspaces u (each-IsChecked i suite workspaces s first))

  with_repo-IsChecked :
      (i : IsServer) (suite : CheckSuite) (workspaces : List Workspace) (repo : Repo) (s : S)
      {t : S}
      → with_repo c suite workspaces repo s ≡ (ok tt, t)
      → All (IsChecked suite t) workspaces
  unfolding with_repo with_repo_path
  with_repo-IsChecked i suite workspaces repo s {t} h =
      let (suite', u, wrote, later) =
        >>=-eq-ok (c.update_suite_status (with_repo_path repo.path suite)) _ s h in
      let same = i.status-spec (with_repo_path repo.path suite) suite' s u wrote in
      subst
        (λ spec.
          All (λ ws. HasCheck ws.namespace (check_run_name spec.id spec.rerequests ws.name) t)
            workspaces)
        same (ensure_checks-IsChecked i suite' workspaces u later)

  with_connected-IsChecked :
      (i : IsServer) (g : Git S) (now : ℕ) (suite : CheckSuite) (workspaces : List Workspace)
      (w : Machine S) {w' : Machine S}
      → with_connected c g now suite workspaces w ≡ (ok tt, w')
      → All (IsChecked suite w'.world) workspaces
  unfolding with_connected
  with_connected-IsChecked i g now suite [] w h = tt
  with_connected-IsChecked i g now suite (ws ∷ workspaces) w {w'} h =
      let (repo, u, cloned, later) = >>=-eq-ok (clone g now (origin suite)) _ w h in
      with_repo-IsChecked i suite (ws ∷ workspaces) repo u.world (ap (λ p. (p.0, p.1.world)) later)

  -- When the reconcile of a suite that exists ends without an error, every workspace whose
  -- repository is the one of the suite has a check run for the suite and its rerequest number.
  pub reconcile-IsChecked :
      (i : IsServer) (g : Git S) (now : ℕ) (name : String) (suite : CheckSuite)
      (workspaces : List Workspace) (w : Machine S) {w' : Machine S}
      → c.get_check_suite name w.world ≡ Kube.Get.found suite
      → c.list_workspaces w.world ≡ ok workspaces
      → reconcile c g now name w ≡ (ok tt, w')
      → All (IsChecked suite w'.world) (connected suite workspaces)
  unfolding reconcile with_suite
  reconcile-IsChecked i g now name suite workspaces w {w'} read listed h =
      with_connected-IsChecked i g now suite (connected suite workspaces) w (steps ∙ h)
    where
      steps : with_connected c g now suite (connected suite workspaces) w ≡ reconcile c g now name w
      steps = rw (reconcile, read, listed) refl
