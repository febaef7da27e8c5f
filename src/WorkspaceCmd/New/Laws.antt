-- ===== src/WorkspaceCmd/New/Laws.antt =====
-- What a failed creation of a workspace leaves behind.
use etok.Base.{
  Bool-cases, ◌≡◌, refl, sym, ap, ◌∙◌, subst, ◌⊎◌, inl, inr, String, true, false, Option, none,
  some, arith,
}
use etok.Labels.{Version, set_common_labels, set_label}
use etok.Api.Workspace.{Workspace}
use etok.Kube
use etok.Kube.{Error, Get, Result, ok, err}
use etok.Kube.Effect.{Done, checked, ◌>>=◌}
use etok.GitRepo.{GitRepo, open_repo, root_module_relative_path, url}
use etok.WorkspaceCmd.{unless_panic, unless_absent, Shell, repo_url}
use etok.WorkspaceCmd.New.{
  follow, NewOptions, Session, new_workspace, prepared, outside, recorded, create_workspace, run,
  cleanup, ended, new_cmd,
}

-- What the API server does: a create that fails changes nothing, and one that ends well makes a
-- workspace that was not there.
pub record IsServer {S : Type 0} (sh : Shell S) : Type 0 where
  pub create-fails :
      (ws : Workspace) (s t : S) (e : Error) (namespace name : String)
      → sh.create_workspace ws s ≡ (err e, t)
      → sh.get_workspace namespace name t ≡ sh.get_workspace namespace name s
  pub create-new :
      (ws ws' : Workspace) (s t : S)
      → sh.create_workspace ws s ≡ (ok ws', t)
      → sh.get_workspace ws.namespace ws.name s ≡ Kube.Get.not_found

-- The workspace is as it was, or it was not there and its deletion has been asked for, last.
abbrev pub IsCleaned : {S : Type 0} → Shell S → NewOptions → S → S → Type 0
IsCleaned {S} sh o s t =
    (sh.get_workspace o.namespace o.workspace t ≡ sh.get_workspace o.namespace o.workspace s)
    ⊎ ((sh.get_workspace o.namespace o.workspace s ≡ Kube.Get.not_found)
        × ((u : S) × (t ≡ (sh.delete_workspace o.namespace o.workspace u).1)))

module _ {S : Type 0} (sh : Shell S) (version : Version) (i : IsServer sh) (s : S) where
  -- Either the session recalls a workspace that was not there at the start, or nothing has been
  -- done to the workspace.
  abbrev IsRecalled : NewOptions → Session S → Type 0
  IsRecalled o w =
      ((w.created_workspace ≡ true)
        × (sh.get_workspace o.namespace o.workspace s ≡ Kube.Get.not_found))
      ⊎ ((w.created_workspace ≡ false)
          × (sh.get_workspace o.namespace o.workspace w.world
              ≡ sh.get_workspace o.namespace o.workspace s))

  cleanup-IsRecalled :
      (o : NewOptions) (w : Session S)
      → IsRecalled o w
      → IsCleaned sh o s (cleanup sh version o w).world
  unfolding cleanup
  cleanup-IsRecalled o w (inl (created, missing)) = inr (missing, (w.world, rw created refl))
  cleanup-IsRecalled o w (inr (nothing, same)) = inl (rw nothing same)

  -- A workspace that is answered is recalled.
  abbrev IsAnswered : NewOptions → Result Workspace × Session S → Type 0
  IsAnswered o (ok ws, w) =
      (w.created_workspace ≡ true)
      × (sh.get_workspace o.namespace o.workspace s ≡ Kube.Get.not_found)
  IsAnswered o (err e, w) = IsRecalled o w

  recorded-IsAnswered :
      (o : NewOptions) (dir url : String) (x : Result Workspace × S)
      → sh.create_workspace (new_workspace version o dir url) s ≡ x
      → IsAnswered o (recorded sh version x)
  unfolding new_workspace set_common_labels set_label
  recorded-IsAnswered o dir url (ok ws, t) called =
      (refl, i.create-new (new_workspace version o dir url) ws s t called)
  recorded-IsAnswered o dir url (err e, t) called =
      inr (
        refl,
        i.create-fails (new_workspace version o dir url) s t e o.namespace o.workspace called,
      )

  abbrev start : Session S
  start = record { created_workspace = false; world = s }

  create_workspace-IsAnswered :
      (o : NewOptions) (repo : GitRepo) → IsAnswered o (create_workspace sh version o repo start)
  unfolding create_workspace
  create_workspace-IsAnswered o repo = go (root_module_relative_path (sh.abs s) repo)
    where
      with_url :
          (dir : String) (u : Option String)
          → IsAnswered o (
              (outside (unless_absent u) >>= λ url. λ w.
                  recorded sh version
                    (sh.create_workspace (new_workspace version o dir url) w.world))
                start)
      with_url dir none = inr (refl, refl)
      with_url dir (some u) = recorded-IsAnswered o dir u _ refl

      go :
          (d : Option (Result String))
          → IsAnswered o (
              (outside (unless_panic d) >>= λ dir. outside (repo_url sh repo) >>= λ url. λ w.
                  recorded sh version
                    (sh.create_workspace (new_workspace version o dir url) w.world))
                start)
      go none = inr (refl, refl)
      go (some (err e)) = inr (refl, refl)
      go (some (ok dir)) = with_url dir (url sh.normalize repo)

  run-IsRecalled :
      (o : NewOptions) (x : Result Workspace × Session S) {w : Session S} {e : Error}
      → IsAnswered o x
      → ((λ _. x) >>= λ ws. outside (follow sh version o ws)) start ≡ (err e, w)
      → IsRecalled o w
  run-IsRecalled o (ok ws, u) {w} kept h =
      let same : u.created_workspace ≡ w.created_workspace = ap (λ p. p.1.created_workspace) h in
      inl (sym same ∙ kept.0, kept.1)
  run-IsRecalled o (err e, u) kept h = subst (λ v. IsRecalled o v) (ap (λ p. p.1) h) kept

  prepared-IsRecalled :
      (o : NewOptions) (w : Session S) → IsRecalled (prepared o) w → IsRecalled o w
  prepared-IsRecalled o w h = elim (Bool-cases o.storage_class_passed) [
    | inl e ↦ rw e at h
    | inr e ↦ rw e at h
  ]

  ended-same :
      (o : NewOptions) (x : Result Done × Session S) {t : S} {e : Error}
      → o.disable_resource_cleanup ≡ false
      → ((failure : Error) (w : Session S) → x ≡ (err failure, w) → IsRecalled o w)
      → ended sh version o x ≡ (err e, t)
      → IsCleaned sh o s t
  unfolding cleanup
  ended-same o (ok unit, w) enabled recalled h = ground arith
  ended-same o (err f, w) {t} enabled recalled h =
      subst (λ v. IsCleaned sh o s v) (rw enabled at (ap (λ p. p.1) h))
        (cleanup-IsRecalled o w (recalled f w refl))

-- A creation that fails with the clean-up enabled leaves the workspace of its name as it was, or
-- the workspace was not there at the start and the last thing done is to ask for its deletion: a
-- workspace that was there before is not touched. The API server creates a workspace or fails.
pub new_cmd-fails :
    {S : Type 0} (sh : Shell S) (version : Version) (o : NewOptions) (s : S) {t : S} {e : Error}
    → IsServer sh
    → o.disable_resource_cleanup ≡ false
    → new_cmd sh version o s ≡ (err e, t)
    → IsCleaned sh o s t
unfolding new_cmd run
new_cmd-fails {S} sh version o s {t} {e} i enabled h = opened (open_repo (sh.find_repo o.path s)) h
  where
    Cleaned : Type 0
    Cleaned = IsCleaned sh o s t

    unchanged : {f : Error} → ◌≡◌ {A = Result Done × S} (err f, s) (err e, t) → Cleaned
    unchanged h = inl (ap (λ p. sh.get_workspace o.namespace o.workspace p.1) (sym h))

    started :
        (repo : GitRepo)
        → ended sh version o (run sh version (prepared o) repo (start sh version i s)) ≡ (err e, t)
        → Cleaned
    started repo h =
        ended-same sh version i s o (run sh version (prepared o) repo (start sh version i s))
          enabled
          (λ failure w failed. prepared-IsRecalled sh version i s o w (
            run-IsRecalled sh version i s (prepared o)
              (create_workspace sh version (prepared o) repo (start sh version i s))
              (create_workspace-IsAnswered sh version i s (prepared o) repo) failed))
          h

    with_client :
        (repo : GitRepo) (x : Result Done)
        → (checked (λ _. x) >>= λ _. λ s.
              ended sh version o (
                run sh version (prepared o) repo (record { created_workspace = false; world = s })))
            s
          ≡ (err e, t)
        → Cleaned
    with_client repo (ok unit) h = started repo h
    with_client repo (err f) h = unchanged h

    opened :
        (x : Result GitRepo)
        → (checked (λ _. x) >>= λ repo. checked sh.create_client >>= λ _. λ s.
              ended sh version o (
                run sh version (prepared o) repo (record { created_workspace = false; world = s })))
            s
          ≡ (err e, t)
        → Cleaned
    opened (ok repo) h = with_client repo (sh.create_client s) h
    opened (err f) h = unchanged h
