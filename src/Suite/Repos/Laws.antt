-- ===== src/Suite/Repos/Laws.antt =====
-- The clones that the manager keeps: they are what they are recorded as, and none is deleted before
-- its time.
use etok.Base.{
  ℕ, ◌+◌, ◌≤◌, ◌≡◌, refl, sym, ◌∙◌, String, true, false, Option, none, some, [], ◌∷◌, arith, ◌==◌,
  ltb, ◌⊎◌, ◌≢◌, ==_cases, ==_refl, ==_of_ne, inl, inr, Bool-cases,
}
use etok.Base.Dict.{Dict, lookup, insert, lookup-insert, lookup-erase}
use etok.Base.FilePath.{path_join}
use etok.Kube.{Result, ok, err}
use etok.Suite.Repos.{
  Repo, RepoManager, Origin, Git, Machine, do_clone, clone, record_clone, clone_managed, reap_repo,
  reap_loop, reap,
}
use etok.Suite.Repos.Managed.{
  IsManaged, insert-IsManaged, erase-IsManaged, IsManaged-lookup, IsFresh, IsFresh-found,
}

module _ {S : Type 0} (g : Git S) where
  -- A clone, or a tick of the reaper, at a time.
  pub data Step (w : Machine S) (now : ℕ) (w' : Machine S) : Type 0 where
    cloned : (o : Origin) → w' ≡ (clone g now o w).1 → Step w now w'
    reaped : w' ≡ reap g now w → Step w now w'

  -- Steps in any order, each at a time between two bounds.
  pub data Steps (from until : ℕ) (w : Machine S) : Machine S → Type 0 where
    here : Steps from until w w
    next :
        {u w' : Machine S} (now : ℕ)
        → Steps from until w u
        → from ≤ now
        → now ≤ until
        → Step u now w'
        → Steps from until w w'

  do_clone-ok :
      (dir : String) (now : ℕ) (o : Origin) (s : S) {r : Repo} {t : S}
      → do_clone g dir now o s ≡ (ok r, t)
      → (r.sha ≡ o.sha) × (r.path ≡ path_join (dir ∷ o.sha ∷ [])) × (r.last_cloned ≡ now)
  unfolding do_clone
  do_clone-ok dir now o s h = ground arith

  -- The commit has a clone that was asked for no earlier than a time.
  abbrev pub IsKept : String → ℕ → String → ℕ → Machine S → Type 0
  IsKept dir ttl sha from w =
      (w.manager.clone_dir ≡ dir)
      × (w.manager.ttl ≡ ttl)
      × IsManaged dir w.manager.managed
      × ((r : Repo) × (lookup sha w.manager.managed ≡ some r) × (from ≤ r.last_cloned))

  store-IsKept :
      (dir : String) (ttl : ℕ) (sha : String) (from : ℕ) (key : String) (r : Repo) (m : RepoManager)
      (before after : S)
      → r.sha ≡ key
      → r.path ≡ path_join (dir ∷ key ∷ [])
      → from ≤ r.last_cloned
      → IsKept dir ttl sha from (record { manager = m; world = before })
      → IsKept dir ttl sha from
          (record { manager = record m { managed = insert key r m.managed }; world = after })
  store-IsKept dir ttl sha from key r m before after own place late h =
      (h.0, h.1, insert-IsManaged dir key r m.managed own place h.2, kept (==_cases key sha))
    where
      kept :
          (((key == sha) ≡ true) × (key ≡ sha)) ⊎ (((key == sha) ≡ false) × (key ≢ sha))
          → (x : Repo) × (lookup sha (insert key r m.managed) ≡ some x) × (from ≤ x.last_cloned)
      kept (inl same) = (r, rw (lookup-insert key sha r m.managed, same.0) refl, late)
      kept (inr other) = (h.3.0, rw (lookup-insert key sha r m.managed, other.0) h.3.1, h.3.2)

  record_clone-IsKept :
      (dir : String) (ttl : ℕ) (sha : String) (from now : ℕ) (o : Origin) (w : Machine S)
      → from ≤ now
      → IsKept dir ttl sha from w
      → (x : Result Repo × S) → do_clone g w.manager.clone_dir now o w.world ≡ x
      → IsKept dir ttl sha from (record_clone o.sha w.manager x).1
  record_clone-IsKept dir ttl sha from now o w late h (err e, s) called = h
  record_clone-IsKept dir ttl sha from now o w late h (ok r, s) called =
      let (own, place, asked) = do_clone-ok w.manager.clone_dir now o w.world called in
      store-IsKept dir ttl sha from o.sha r w.manager w.world s own (rw (place, h.0) refl)
        (rw asked late) h

  clone-IsKept :
      (dir : String) (ttl : ℕ) (sha : String) (from now : ℕ) (o : Origin) (w : Machine S)
      → from ≤ now
      → IsKept dir ttl sha from w
      → IsKept dir ttl sha from (clone g now o w).1
  unfolding clone
  clone-IsKept dir ttl sha from now o w late h = go (lookup o.sha w.manager.managed) refl
    where
      go :
          (found : Option Repo)
          → lookup o.sha w.manager.managed ≡ found
          → IsKept dir ttl sha from (clone_managed g now o found w).1
      go none missing =
          record_clone-IsKept dir ttl sha from now o w late h
            (do_clone g w.manager.clone_dir now o w.world) refl
      go (some r) found =
          let (own, place) = IsManaged-lookup dir o.sha w.manager.managed h.2 found in
          store-IsKept dir ttl sha from o.sha (record r { last_cloned = now }) w.manager w.world
            w.world own place late h

  reap_repo-IsKept :
      (dir : String) (ttl : ℕ) (sha : String) (from now : ℕ) (r : Repo) (w : Machine S)
      → now ≤ from + ttl
      → (r.sha ≡ sha → from ≤ r.last_cloned)
      → IsKept dir ttl sha from w
      → IsKept dir ttl sha from (reap_repo g now r w)
  unfolding reap_repo
  reap_repo-IsKept dir ttl sha from now r w soon fresh h =
      elim (Bool-cases (ltb (r.last_cloned + w.manager.ttl) now)) [
        | inl expired ↦
            let other : r.sha ≢ sha = λ same. absurd (ground (arith, fresh same)) in
            rw expired (
              h.0,
              h.1,
              erase-IsManaged dir r.sha w.manager.managed h.2,
              (h.3.0, rw (lookup-erase r.sha sha w.manager.managed, ==_of_ne other) h.3.1, h.3.2),
            )
        | inr young ↦ rw young h
      ]

  reap_loop-IsKept :
      (dir : String) (ttl : ℕ) (sha : String) (from now : ℕ) (repos : Dict Repo) (w : Machine S)
      → now ≤ from + ttl
      → IsFresh sha from repos
      → IsKept dir ttl sha from w
      → IsKept dir ttl sha from (reap_loop g now repos w)
  unfolding reap_loop
  reap_loop-IsKept dir ttl sha from now [] w soon fresh h = h
  reap_loop-IsKept dir ttl sha from now ((key, r) ∷ repos) w soon fresh h =
      reap_loop-IsKept dir ttl sha from now repos (reap_repo g now r w) soon fresh.1
        (reap_repo-IsKept dir ttl sha from now r w soon fresh.0 h)

  Step-IsKept :
      (dir : String) (ttl : ℕ) (sha : String) (from now : ℕ) {w w' : Machine S}
      → from ≤ now
      → now ≤ from + ttl
      → Step w now w'
      → IsKept dir ttl sha from w
      → IsKept dir ttl sha from w'
  unfolding reap
  Step-IsKept dir ttl sha from now {w} late soon (cloned o e) h =
      rw e (clone-IsKept dir ttl sha from now o w late h)
  Step-IsKept dir ttl sha from now {w} late soon (reaped e) h = rw e (
      reap_loop-IsKept dir ttl sha from now w.manager.managed w soon
        (IsFresh-found dir sha from w.manager.managed h.3.0 h.2 h.3.1 h.3.2) h)

  Steps-IsKept :
      (dir : String) (ttl : ℕ) (sha : String) (from : ℕ) {w w' : Machine S}
      → IsKept dir ttl sha from w
      → Steps from (from + ttl) w w'
      → IsKept dir ttl sha from w'
  Steps-IsKept dir ttl sha from h here = h
  Steps-IsKept dir ttl sha from h (next now steps late soon step) =
      Step-IsKept dir ttl sha from now late soon step (Steps-IsKept dir ttl sha from h steps)

  fresh-IsKept :
      (dir : String) (now : ℕ) (key : String) (r : Repo) (m : RepoManager) (s : S)
      → r.sha ≡ key
      → r.path ≡ path_join (dir ∷ key ∷ [])
      → now ≤ r.last_cloned
      → m.clone_dir ≡ dir
      → IsManaged dir m.managed
      → IsKept dir m.ttl key now
          (record { manager = record m { managed = insert key r m.managed }; world = s })
  fresh-IsKept dir now key r m s own place late base managed = (
    base,
    refl,
    insert-IsManaged dir key r m.managed own place managed,
    (r, rw (lookup-insert key key r m.managed, ==_refl key) refl, late),
  )

  cloned-IsKept :
      (dir : String) (now : ℕ) (o : Origin) (w : Machine S) {r : Repo} {u : Machine S}
      → w.manager.clone_dir ≡ dir
      → IsManaged dir w.manager.managed
      → clone g now o w ≡ (ok r, u)
      → IsKept dir w.manager.ttl o.sha now u × (r.path ≡ path_join (dir ∷ o.sha ∷ []))
  unfolding clone
  cloned-IsKept dir now o w {r} {u} base m h = go (lookup o.sha w.manager.managed) refl h
    where
      stored :
          (x : Result Repo × S)
          → do_clone g w.manager.clone_dir now o w.world ≡ x
          → record_clone o.sha w.manager x ≡ (ok r, u)
          → IsKept dir w.manager.ttl o.sha now u × (r.path ≡ path_join (dir ∷ o.sha ∷ []))
      stored (err e, s) called done = cc
      stored (ok new, s) called done =
          let (own, place, asked) = do_clone-ok w.manager.clone_dir now o w.world called in
          let path : new.path ≡ path_join (dir ∷ o.sha ∷ []) = rw (← base) place in
          let same : new ≡ r = ground arith in
          let after : record {
            manager = record (w.manager) { managed = insert o.sha new w.manager.managed };
            world = s;
          }
              ≡ u =
            ground arith in
          (
            rw (← after) (fresh-IsKept dir now o.sha new w.manager s own path (omega arith) base m),
            rw (← same) path,
          )

      go :
          (found : Option Repo)
          → lookup o.sha w.manager.managed ≡ found
          → clone_managed g now o found w ≡ (ok r, u)
          → IsKept dir w.manager.ttl o.sha now u × (r.path ≡ path_join (dir ∷ o.sha ∷ []))
      go none missing done = stored (do_clone g w.manager.clone_dir now o w.world) refl done
      go (some old) found done =
          let (own, place) = IsManaged-lookup dir o.sha w.manager.managed m found in
          let new : Repo = record old { last_cloned = now } in
          let same : new ≡ r = ground arith in
          let after : record {
            manager = record (w.manager) { managed = insert o.sha new w.manager.managed };
            world = w.world;
          }
              ≡ u =
            ground arith in
          (
            rw (← after)
                (fresh-IsKept dir now o.sha new w.manager w.world own place (omega arith) base m),
            rw (← same) place,
          )

  -- A clone that was handed out stays under management, in the directory that was handed out, for
  -- the time to live of the manager, whatever is cloned and however often the reaper ticks until
  -- then, if every clone that was managed before stands under its commit and in its directory.
  pub clone-survives :
      (now : ℕ) (o : Origin) (w : Machine S) {r : Repo} {u v : Machine S}
      → IsManaged w.manager.clone_dir w.manager.managed
      → clone g now o w ≡ (ok r, u)
      → Steps now (now + w.manager.ttl) u v
      → (r' : Repo) × (lookup o.sha v.manager.managed ≡ some r') × (r'.path ≡ r.path)
  clone-survives now o w m h steps =
      let (kept, place) = cloned-IsKept w.manager.clone_dir now o w refl m h in
      let after = Steps-IsKept w.manager.clone_dir w.manager.ttl o.sha now kept steps in
      (
        after.3.0,
        after.3.1,
        (IsManaged-lookup w.manager.clone_dir o.sha _ after.2 after.3.1).1 ∙ sym place,
      )
