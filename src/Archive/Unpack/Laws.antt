-- ===== src/Archive/Unpack/Laws.antt =====
-- Every file of an archive without links stands where it belongs after an extraction.
use etok.Base.{
  ap, sym, subst, ◌∙◌, ◌≡◌, ◌≢◌, ◌⊎◌, inl, inr, refl, ℕ, String, Option, none, some, List, [], ◌∷◌,
  ◌++◌, All,
}
use etok.Base.FilePath.{dir}
use etok.Kube.{Error, Result, ok, err}
use etok.Kube.Effect.{Done, call, wrap, >>=-eq-ok}
use etok.Archive.Pack.{Header, TarType, tar_dir, tar_reg, tar_reg_a, tar_symlink, tar_other}
use etok.Archive.Unpack.{
  Entry, Created, created, forbidden, not_created, Target, entry_path, create_error, recreated,
  create_file, extract_file, extract_as, extract, after_entry, with_path, unpack_entries, unpack,
}

-- A file: its content and its mode, if there is one at a path.
abbrev pub At : Type 0 → Type 0
At S = String → S → Option (String × ℕ)

-- What the file system does where no links are made: a call changes no file but the one at its path,
-- a write stores a content, and a change of mode a mode.
pub record IsDisk {S : Type 0} (d : Target S) (at : At S) : Type 0 where
  pub make_dirs-keeps : (p q : String) (s : S) → at q (d.make_dirs p s).1 ≡ at q s
  pub create-keeps : (p q : String) (s : S) → q ≢ p → at q (d.create p s).1 ≡ at q s
  pub write-keeps : (p q c : String) (s : S) → q ≢ p → at q (d.write p c s).1 ≡ at q s
  pub chmod-keeps : (p q : String) (n : ℕ) (s : S) → q ≢ p → at q (d.chmod p n s).1 ≡ at q s
  pub write-stores :
      (p c : String) (s t : S) → d.write p c s ≡ (none, t) → (n : ℕ) × (at p t ≡ some (c, n))
  pub chmod-stores :
      (p c : String) (n k : ℕ) (s t : S)
      → d.chmod p n s ≡ (none, t)
      → at p s ≡ some (c, k)
      → at p t ≡ some (c, n)

abbrev pub IsFile : TarType → Type 0
IsFile x = (x ≡ tar_reg) ⊎ (x ≡ tar_reg_a)

abbrev pub NoLink : Entry → Type 0
NoLink e = e.header.type ≢ tar_symlink

abbrev path_or : String → Option String → String
path_or fallback none = fallback
path_or fallback (some path) = path

wrap-eq-ok :
    {S : Type 0} (text : String) (x : Option Error × S) (s t : S) {unit : Done}
    → wrap text (call (λ _. x)) s ≡ (ok unit, t)
    → x ≡ (none, t)
wrap-eq-ok text (none, u) s t h = ap (λ p. (none, p.1)) h
wrap-eq-ok text (some e, u) s t h = cc

module _ {S : Type 0} (d : Target S) (at : At S) (i : IsDisk d at) where
  create_file-keeps : (path q : String) (s : S) → q ≢ path → at q (create_file d path s).1 ≡ at q s
  unfolding create_file
  create_file-keeps path q s other = go (d.create path s) (i.create-keeps path q s other)
    where
      plain : (x : Created × S) → at q (create_error d path x).1 ≡ at q x.1
      plain (created, t) = refl
      plain (forbidden e, t) = refl
      plain (not_created e, t) = refl

      go : (x : Created × S) → at q x.1 ≡ at q s → at q (recreated d path x).1 ≡ at q s
      go (created, t) same = same
      go (not_created e, t) same = same
      go (forbidden e, t) same =
          plain (d.create path (d.chmod path 384 t).1)
          ∙ (i.create-keeps path q (d.chmod path 384 t).1 other
              ∙ (i.chmod-keeps path q 384 t other ∙ same))

  -- The calls of an extraction that ends well.
  extract_file-eq-ok :
      (path : String) (h : Header) (content : String) (s t : S) {unit : Done}
      → extract_file d path h content s ≡ (ok unit, t)
      → (u v : S) × (u ≡ (create_file d path s).1)
        × (d.write path content u ≡ (none, v))
        × (d.chmod path h.mode v ≡ (none, t))
  unfolding extract_file
  extract_file-eq-ok path h content s t e =
      let (_, u, made, e1) = >>=-eq-ok (create_file d path) _ s e in
      let (_, v, wrote, e2) = >>=-eq-ok (wrap _ (call (d.write path content))) _ u e1 in
      (
        u,
        v,
        ap (λ x. x.1) (sym made),
        wrap-eq-ok _ (d.write path content u) u v wrote,
        wrap-eq-ok _ (d.chmod path h.mode v) v t e2,
      )

  extract_file-keeps :
      (path q : String) (h : Header) (content : String) (s t : S) {unit : Done}
      → q ≢ path
      → extract_file d path h content s ≡ (ok unit, t)
      → at q t ≡ at q s
  extract_file-keeps path q h content s t other e =
      let (u, v, made, wrote, set) = extract_file-eq-ok path h content s t e in
      sym (ap (λ x. at q x.1) set)
      ∙ (i.chmod-keeps path q h.mode v other
          ∙ (sym (ap (λ x. at q x.1) wrote)
              ∙ (i.write-keeps path q content u other
                  ∙ (ap (at q) made ∙ create_file-keeps path q s other))))

  extract_file-stores :
      (path : String) (h : Header) (content : String) (s t : S) {unit : Done}
      → extract_file d path h content s ≡ (ok unit, t)
      → at path t ≡ some (content, h.mode)
  extract_file-stores path h content s t e =
      let (u, v, made, wrote, set) = extract_file-eq-ok path h content s t e in
      let (n, stored) = i.write-stores path content u v wrote in
      i.chmod-stores path content h.mode n v t set stored

  extract_as-keeps :
      (x : TarType) (path q : String) (h : Header) (content : String) (s t : S) {unit : Done}
      → x ≢ tar_symlink
      → q ≢ path
      → extract_as d x path h content s ≡ (ok unit, t)
      → at q t ≡ at q s
  extract_as-keeps tar_symlink path q h content s t plain other e = absurd (plain refl)
  extract_as-keeps tar_dir path q h content s t plain other e = ap (λ x. at q x.1) (sym e)
  extract_as-keeps tar_reg path q h content s t plain other e =
      extract_file-keeps path q h content s t other e
  extract_as-keeps tar_reg_a path q h content s t plain other e =
      extract_file-keeps path q h content s t other e
  extract_as-keeps (tar_other k) path q h content s t plain other e = cc

  extract-eq-ok :
      (path : String) (e : Entry) (s t : S) {unit : Done}
      → extract d path e s ≡ (ok unit, t)
      → (u : S) × (d.make_dirs (dir path) s ≡ (none, u))
        × (extract_as d e.header.type path e.header e.content u ≡ (ok unit, t))
  unfolding extract
  extract-eq-ok path e s t h =
      let (_, u, made, h1) = >>=-eq-ok (wrap _ (call (d.make_dirs (dir path)))) _ s h in
      (u, wrap-eq-ok _ (d.make_dirs (dir path) s) s u made, h1)

  extract-keeps :
      (path q : String) (e : Entry) (s t : S) {unit : Done}
      → NoLink e
      → q ≢ path
      → extract d path e s ≡ (ok unit, t)
      → at q t ≡ at q s
  extract-keeps path q e s t plain other h =
      let (u, made, h1) = extract-eq-ok path e s t h in
      extract_as-keeps e.header.type path q e.header e.content u t plain other h1
      ∙ (sym (ap (λ x. at q x.1) made) ∙ i.make_dirs-keeps (dir path) q s)

  extract-stores :
      (path : String) (e : Entry) (s t : S) {unit : Done}
      → IsFile e.header.type
      → extract d path e s ≡ (ok unit, t)
      → at path t ≡ some (e.content, e.header.mode)
  extract-stores path e s t (inl file) h =
      let (u, made, h1) = extract-eq-ok path e s t h in
      extract_file-stores path e.header e.content u t
        (subst (λ x. extract_as d x path e.header e.content u ≡ (ok tt, t)) file h1)
  extract-stores path e s t (inr file) h =
      let (u, made, h1) = extract-eq-ok path e s t h in
      extract_file-stores path e.header e.content u t
        (subst (λ x. extract_as d x path e.header e.content u ≡ (ok tt, t)) file h1)

  abbrev state_or : S → Option (Result Done × S) → S
  state_or s none = s
  state_or s (some (r, t)) = t

  -- An entry that has been extracted, and the rest of the loop.
  with_path-eq-ok :
      (rest : S → Option (Result Done × S)) (e : Entry) (s t : S) (x : Option String) {unit : Done}
      → with_path d rest e s x ≡ some (ok unit, t)
      → (path : String) × (u : S) × (x ≡ some path)
        × (extract d path e s ≡ (ok tt, u))
        × (rest u ≡ some (ok unit, t))
  with_path-eq-ok rest e s t none h = cc
  with_path-eq-ok rest e s t (some path) {unit} h = go (extract d path e s) refl h
    where
      go :
          (y : Result Done × S)
          → extract d path e s ≡ y
          → after_entry d rest y ≡ some (ok unit, t)
          → (p : String) × (u : S) × (some path ≡ some p)
            × (extract d p e s ≡ (ok tt, u))
            × (rest u ≡ some (ok unit, t))
      go (ok _, u) done h = (path, u, refl, done, h)
      go (err f, u) done h = cc

  -- Entries behind an entry that do not go to its path.
  abbrev pub Elsewhere : String → String → List Entry → Type 0
  Elsewhere dst q = All (λ e. NoLink e × (entry_path dst e.header.name ≢ some q))

  unpack_entries-keeps :
      (dst q : String) (entries : List Entry) (end : Option Error) (s t : S) {unit : Done}
      → Elsewhere dst q entries
      → unpack_entries d dst entries end s ≡ some (ok unit, t)
      → at q t ≡ at q s
  unfolding unpack_entries
  unpack_entries-keeps dst q [] none s t others h = ap (λ x. at q (state_or s x)) (sym h)
  unpack_entries-keeps dst q [] (some f) s t others h = cc
  unpack_entries-keeps dst q (e ∷ entries) end s t others h =
      let (path, u, place, done, h1) =
        with_path-eq-ok (unpack_entries d dst entries end) e s t _ h in
      unpack_entries-keeps dst q entries end u t others.1 h1
      ∙ extract-keeps path q e s u others.0.0
          (λ same. others.0.1 (place ∙ ap (λ p. some p) (sym same))) done

  -- When an extraction ends well, every regular file of the archive stands at its path with its
  -- content and its mode, if no later entry is a link or goes to the same path, on a file system whose
  -- calls change the file at their own path only.
  pub unpack-stores :
      (dst path : String) (before after : List Entry) (e : Entry) (end : Option Error) (s t : S)
      {unit : Done}
      → unpack d (ok (before ++ (e ∷ after), end)) dst s ≡ some (ok unit, t)
      → IsFile e.header.type
      → entry_path dst e.header.name ≡ some path
      → Elsewhere dst path after
      → at path t ≡ some (e.content, e.header.mode)
  unfolding unpack unpack_entries
  unpack-stores dst path [] after e end s t h file place others =
      let (p, u, found, done, h1) = with_path-eq-ok (unpack_entries d dst after end) e s t _ h in
      unpack_entries-keeps dst path after end u t others h1
      ∙ subst (λ x. at x u ≡ some (e.content, e.header.mode)) (ap (path_or "") (sym found ∙ place))
          (extract-stores p e s u file done)
  unpack-stores dst path (b ∷ before) after e end s t h file place others =
      let (p, u, found, done, h1) =
        with_path-eq-ok (unpack_entries d dst (before ++ (e ∷ after)) end) b s t _ h in
      unpack-stores dst path before after e end u t h1 file place others
