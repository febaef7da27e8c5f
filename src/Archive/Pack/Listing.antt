-- ===== src/Archive/Pack/Listing.antt =====
-- What a walk over trees keeps.
use etok.Base.{
  ◌⊎◌, inl, inr, ◌≡◌, refl, ℕ, zero, suc, String, ◌<>◌, Bool, true, false, Option, none, some, List,
  [], ◌∷◌, ◌==◌, if◌then◌else◌,
}
use etok.Base.FilePath.{dir, rel}
use etok.Kube.{Result, ok, err}
use etok.Kube.Effect.{Done}
use etok.Archive.{RuleMatcher, match}
use etok.Base.Text.{replace_first, contains_text}
use etok.Archive.Pack.{
  is_dir, check_file_mode, FileType, directory, regular, symlink, special, Info, tar_dir, tar_reg,
  tar_symlink, Header, Disk, Tar, Packing, Visited, stopped, into, written, header, followed_as,
  followed, with_link, with_target, kept_as, with_subpath, visit, after, finished, pack_visits,
  pack_tree, pack_trees,
}
use etok.Archive.Pack.Writing.{IsTar, IsAllowed, Kept, KeptIf, written-KeptIf}

module _ {W : Type 0} (t : Tar W) (headers : W → List Header) (i : IsTar t headers) (d : Disk)
    (base : String) (m : RuleMatcher) where
  abbrev IsSound : Visited W → Type 0
  IsSound (stopped x) = KeptIf t headers i d base m x
  IsSound (into target path p) = Kept t headers i d base m p

  -- A file that is archived under a subpath of the base, from a visit that no rule ignores.
  abbrev IsFrom : String → String → Info → String → Type 0
  IsFrom src path info subpath =
      (match d.match_string m path (is_dir info.type) ≡ false)
      × ((dst : String) × (rel base (replace_first path src dst) ≡ some subpath))

  IsAllowed-IsFrom :
      (src path subpath : String) (info : Info) (h : Header)
      → IsFrom src path info subpath
      → ((h.name ≡ subpath) ⊎ (h.name ≡ subpath <> "/"))
      → IsAllowed t headers i d base m h
  IsAllowed-IsFrom src path subpath info h (free, (dst, place)) named =
      (src, dst, path, subpath, info, free, place, named)

  followed-IsSound :
      (src path subpath target : String) (info : Info) (x : Result Info) (p : Packing W)
      → Kept t headers i d base m p
      → IsFrom src path info subpath
      → IsSound (followed t d base m path subpath target x p)
  followed-IsSound src path subpath target info (err e) p k from = tt
  followed-IsSound src path subpath target info (ok found) p k from = go found.type
    where
      archived : IsSound (
          stopped (
            written t d base m path (header t d base m found subpath tar_reg found.size "") true p))
      archived =
          written-KeptIf t headers i d base m path
            (header t d base m found subpath tar_reg found.size "") true p k
            (IsAllowed-IsFrom src path subpath info
              (header t d base m found subpath tar_reg found.size "") from (inl refl))

      go : (x : FileType) → IsSound (followed_as t d base m x found path subpath target p)
      go directory = k
      go regular = archived
      go symlink = archived
      go special = archived

  with_link-IsSound :
      (src path subpath : String) (info : Info) (x : Option String) (p : Packing W)
      → Kept t headers i d base m p
      → IsFrom src path info subpath
      → IsSound (with_link t d base m info path subpath x p)
  with_link-IsSound src path subpath info none p k from = tt
  with_link-IsSound src path subpath info (some link) p k from =
      let h : Header = header t d base m info subpath tar_symlink 0 link in
      written-KeptIf t headers i d base m path h false p k
        (IsAllowed-IsFrom src path subpath info h from (inl refl))

  with_target-IsSound :
      (src path subpath : String) (dereference : Bool) (info : Info) (x : Result String)
      (p : Packing W)
      → Kept t headers i d base m p
      → IsFrom src path info subpath
      → IsSound (with_target t d base m src dereference info path subpath x p)
  with_target-IsSound src path subpath dereference info (err e) p k from = tt
  with_target-IsSound src path subpath dereference info (ok target) p k from =
      go (contains_text target src) dereference
    where
      go :
          (within follow : Bool)
          → IsSound (
              if within
              then with_link t d base m info path subpath (rel (dir path) target) p
              else if follow
              then followed t d base m path subpath target (d.lstat target) p
              else stopped (ok tt, p))
      go true follow = with_link-IsSound src path subpath info (rel (dir path) target) p k from
      go false true = followed-IsSound src path subpath target info (d.lstat target) p k from
      go false false = k

  kept_as-IsSound :
      (x : FileType) (src path subpath : String) (dereference : Bool) (info : Info) (p : Packing W)
      → Kept t headers i d base m p
      → IsFrom src path info subpath
      → IsSound (kept_as t d base m x src dereference info path subpath p)
  kept_as-IsSound directory src path subpath dereference info p k from =
      let h : Header = header t d base m info (subpath <> "/") tar_dir 0 "" in
      written-KeptIf t headers i d base m path h false p k
        (IsAllowed-IsFrom src path subpath info h from (inr refl))
  kept_as-IsSound regular src path subpath dereference info p k from =
      let h : Header = header t d base m info subpath tar_reg info.size "" in
      written-KeptIf t headers i d base m path h true p k
        (IsAllowed-IsFrom src path subpath info h from (inl refl))
  kept_as-IsSound symlink src path subpath dereference info p k from =
      with_target-IsSound src path subpath dereference info (d.eval_symlinks path) p k from
  kept_as-IsSound special src path subpath dereference info p k from = tt

  with_subpath-IsSound :
      (src dst path : String) (dereference : Bool) (info : Info) (x : Option String) (p : Packing W)
      → Kept t headers i d base m p
      → match d.match_string m path (is_dir info.type) ≡ false
      → rel base (replace_first path src dst) ≡ x
      → IsSound (with_subpath t d base m src dereference info path x p)
  with_subpath-IsSound src dst path dereference info none p k free place = tt
  with_subpath-IsSound src dst path dereference info (some subpath) p k free place =
      go (subpath == ".") ((check_file_mode info.type).0)
    where
      go :
          (top keep : Bool)
          → IsSound (
              if top
              then stopped (ok tt, p)
              else if keep
              then kept_as t d base m info.type src dereference info path subpath p
              else stopped (ok tt, p))
      go true keep = k
      go false true =
          kept_as-IsSound info.type src path subpath dereference info p k (free, (dst, place))
      go false false = k

  visit-IsSound :
      (src dst : String) (dereference : Bool) (v : String × Result Info) (p : Packing W)
      → Kept t headers i d base m p
      → IsSound (visit t d base m src dst dereference v p)
  unfolding visit
  visit-IsSound src dst dereference (path, err e) p k = tt
  visit-IsSound src dst dereference (path, ok info) p k =
      go (match d.match_string m path (is_dir info.type)) refl
    where
      go :
          (ignored : Bool)
          → match d.match_string m path (is_dir info.type) ≡ ignored
          → IsSound (
              if ignored
              then stopped (ok tt, p)
              else with_subpath t d base m src dereference info path
                  (rel base (replace_first path src dst))
                  p)
      go true free = k
      go false free = with_subpath-IsSound src dst path dereference info _ p k free refl

  abbrev pub IsAnswer : Option (Result Done × Packing W) → Type 0
  IsAnswer none = Unit
  IsAnswer (some x) = KeptIf t headers i d base m x

  finished-IsAnswer :
      (recur : String → String → Packing W → Option (Result Done × Packing W)) (v : Visited W)
      → ((src dst : String) (p : Packing W)
          → Kept t headers i d base m p
          → IsAnswer (recur src dst p))
      → IsSound v
      → IsAnswer (finished t d base m recur v)
  finished-IsAnswer recur (stopped x) deeper sound = sound
  finished-IsAnswer recur (into target path p) deeper sound = deeper target path p sound

  after-IsAnswer :
      (rest : Packing W → Option (Result Done × Packing W)) (x : Option (Result Done × Packing W))
      → ((p : Packing W) → Kept t headers i d base m p → IsAnswer (rest p))
      → IsAnswer x
      → IsAnswer (after t d base m rest x)
  after-IsAnswer rest none later k = tt
  after-IsAnswer rest (some (err e, p)) later k = tt
  after-IsAnswer rest (some (ok unit, p)) later k = later p k

  pack_visits-IsAnswer :
      (recur : String → String → Packing W → Option (Result Done × Packing W)) (src dst : String)
      (dereference : Bool) (vs : List (String × Result Info)) (p : Packing W)
      → ((src dst : String) (p : Packing W)
          → Kept t headers i d base m p
          → IsAnswer (recur src dst p))
      → Kept t headers i d base m p
      → IsAnswer (pack_visits t d base m recur src dst dereference vs p)
  unfolding pack_visits
  pack_visits-IsAnswer recur src dst dereference [] p deeper k = k
  pack_visits-IsAnswer recur src dst dereference (v ∷ vs) p deeper k =
      after-IsAnswer (pack_visits t d base m recur src dst dereference vs) _
        (λ q kept. pack_visits-IsAnswer recur src dst dereference vs q deeper kept)
        (finished-IsAnswer recur _ deeper (visit-IsSound src dst dereference v p k))

  pack_tree-IsAnswer :
      (fuel : ℕ) (dereference : Bool) (src dst : String) (p : Packing W)
      → Kept t headers i d base m p
      → IsAnswer (pack_tree t d base m fuel dereference src dst p)
  unfolding pack_tree
  pack_tree-IsAnswer zero dereference src dst p k = tt
  pack_tree-IsAnswer (suc fuel) dereference src dst p k =
      pack_visits-IsAnswer _ src dst dereference (d.visits src) p
        (λ src dst q kept. pack_tree-IsAnswer fuel dereference src dst q kept) k

  pub pack_trees-IsAnswer :
      (fuel : ℕ) (paths : List String) (p : Packing W)
      → Kept t headers i d base m p
      → IsAnswer (pack_trees t d base m fuel paths p)
  unfolding pack_trees
  pack_trees-IsAnswer fuel [] p k = k
  pack_trees-IsAnswer fuel (path ∷ paths) p k =
      after-IsAnswer (pack_trees t d base m fuel paths) _
        (λ q kept. pack_trees-IsAnswer fuel paths q kept)
        (pack_tree-IsAnswer fuel true path path p k)
