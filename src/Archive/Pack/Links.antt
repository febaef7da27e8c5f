-- ===== src/Archive/Pack/Links.antt =====
-- The links that lead from one tree into another.
use etok.Base.{◌≡◌, refl, String, Bool, true, false, Option, none, some, if◌then◌else◌}
use etok.Base.FilePath.{dir, rel}
use etok.Base.{◌==◌}
use etok.Kube.{Result, ok, err}
use etok.Archive.{RuleMatcher, match}
use etok.Base.Text.{replace_first, contains_text}
use etok.Archive.Pack.{
  is_dir, check_file_mode, FileType, directory, regular, symlink, special, Info, Disk, Tar, Packing,
  Visited, stopped, into, followed_as, followed, with_link, with_target, kept_as, with_subpath,
  visit,
}

module _ {W : Type 0} (t : Tar W) (d : Disk) (base : String) (m : RuleMatcher) where
  -- A visit that leads into another tree is one of a link whose target is that tree.
  abbrev pub IsLink : String → Visited W → Type 0
  IsLink visited (stopped x) = Unit
  IsLink visited (into target path p) = (visited ≡ path) × (d.eval_symlinks visited ≡ ok target)

  followed-IsLink :
      (path subpath target : String) (x : Result Info) (p : Packing W)
      → d.eval_symlinks path ≡ ok target
      → IsLink path (followed t d base m path subpath target x p)
  followed-IsLink path subpath target (err e) p found = tt
  followed-IsLink path subpath target (ok info) p found = go info.type
    where
      go : (x : FileType) → IsLink path (followed_as t d base m x info path subpath target p)
      go directory = (refl, found)
      go regular = tt
      go symlink = tt
      go special = tt

  with_target-IsLink :
      (src path subpath : String) (dereference : Bool) (info : Info) (x : Result String)
      (p : Packing W)
      → d.eval_symlinks path ≡ x
      → IsLink path (with_target t d base m src dereference info path subpath x p)
  with_target-IsLink src path subpath dereference info (err e) p found = tt
  with_target-IsLink src path subpath dereference info (ok target) p found =
      go (contains_text target src) dereference
    where
      linked : (x : Option String) → IsLink path (with_link t d base m info path subpath x p)
      linked none = tt
      linked (some link) = tt

      go :
          (within follow : Bool)
          → IsLink path (
              if within
              then with_link t d base m info path subpath (rel (dir path) target) p
              else if follow
              then followed t d base m path subpath target (d.lstat target) p
              else stopped (ok tt, p))
      go true follow = linked (rel (dir path) target)
      go false true = followed-IsLink path subpath target (d.lstat target) p found
      go false false = tt

  kept_as-IsLink :
      (x : FileType) (src path subpath : String) (dereference : Bool) (info : Info) (p : Packing W)
      → IsLink path (kept_as t d base m x src dereference info path subpath p)
  kept_as-IsLink directory src path subpath dereference info p = tt
  kept_as-IsLink regular src path subpath dereference info p = tt
  kept_as-IsLink symlink src path subpath dereference info p =
      with_target-IsLink src path subpath dereference info (d.eval_symlinks path) p refl
  kept_as-IsLink special src path subpath dereference info p = tt

  with_subpath-IsLink :
      (src path : String) (dereference : Bool) (info : Info) (x : Option String) (p : Packing W)
      → IsLink path (with_subpath t d base m src dereference info path x p)
  with_subpath-IsLink src path dereference info none p = tt
  with_subpath-IsLink src path dereference info (some subpath) p =
      go (subpath == ".") ((check_file_mode info.type).0)
    where
      go :
          (top keep : Bool)
          → IsLink path (
              if top
              then stopped (ok tt, p)
              else if keep
              then kept_as t d base m info.type src dereference info path subpath p
              else stopped (ok tt, p))
      go true keep = tt
      go false true = kept_as-IsLink info.type src path subpath dereference info p
      go false false = tt

  pub visit-IsLink :
      (src dst : String) (dereference : Bool) (v : String × Result Info) (p : Packing W)
      → IsLink v.0 (visit t d base m src dst dereference v p)
  unfolding visit
  visit-IsLink src dst dereference (path, err e) p = tt
  visit-IsLink src dst dereference (path, ok info) p =
      go (match d.match_string m path (is_dir info.type))
    where
      go :
          (ignored : Bool)
          → IsLink path (
              if ignored
              then stopped (ok tt, p)
              else with_subpath t d base m src dereference info path
                  (rel base (replace_first path src dst))
                  p)
      go true = tt
      go false =
          with_subpath-IsLink src path dereference info (rel base (replace_first path src dst)) p
