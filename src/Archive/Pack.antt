-- ===== src/Archive/Pack.antt =====
-- pkg/archive/archive.go: the making of an archive. The tar and gzip writers and the file system are
-- parameters; filepath.Walk answers the visits of a tree in their order.
pub mod Links
pub mod Writing
pub mod Listing
pub mod Laws
use text.Mathlib.Text.{starts_with}
use etok.Base.{
  ℕ, zero, suc, ◌+◌, String, ◌<>◌, Bool, true, false, not, Option, none, some, List, [], ◌∷◌, ◌++◌,
  ◌==◌, if◌then◌else◌,
}
use etok.Base.Text.{replace_first, contains_text}
use etok.Base.FilePath.{dir, rel, is_abs}
use etok.Kube.{Error, Get, Result, ok, err, ConfigMap}
use etok.Labels
use etok.Labels.{Version, set_common_labels, set_label}
use etok.RunPod.{named}
use etok.Api.Meta.{ObjectMeta}
use etok.Api.Run.{run_default_config_map_key}
use etok.Kube.Effect.{Effect, Done, pure, raise, lift, call, wrap, ◌>>=◌, ◌>>◌}
use etok.Paths.{ensure_abs, remove_nested_paths}
use etok.Archive.{RuleMatcher, new_rule_matcher, match}
use etok.Archive.Modules.{walk}
use etok.Archive.Writer.{max_config_size}

pub data FileType : Type 0 where
  directory regular symlink special : FileType

-- os.FileInfo. The size and the mode are those of the file itself.
pub record Info : Type 0 where
  pub type : FileType
  pub perm : ℕ
  pub mod_time : ℕ
  pub size : ℕ

pub data TarType : Type 0 where
  tar_dir tar_reg tar_reg_a tar_symlink : TarType
  tar_other : ℕ → TarType

pub record Header : Type 0 where
  pub name : String
  pub mod_time : ℕ
  pub mode : ℕ
  pub type : TarType
  pub size : ℕ
  pub link_name : String

-- Whether a file is kept, and whether it has a body.
unfoldable pub check_file_mode : FileType → Bool × Bool
check_file_mode directory = (true, false)
check_file_mode regular = (true, true)
check_file_mode symlink = (true, false)
check_file_mode special = (false, false)

unfoldable pub is_dir : FileType → Bool
is_dir directory = true
is_dir _ = false

-- The file system, which is read only.
pub record Disk : Type 0 where
  pub visits : String → List (String × Result Info)
  pub eval_symlinks : String → Result String
  pub lstat : String → Result Info
  pub open_file : String → Result Done
  -- Where the ignore rules match
  pub match_string : String → String → Option Bool

-- The tar writer, in front of the gzip writer and the writer with a limit.
pub record Tar (W : Type 0) : Type 0 where
  pub write_header : Header → W → Option Error × W
  pub copy : String → W → Result ℕ × W
  pub close_tar : W → Option Error × W
  pub close_gzip : W → Option Error × W
  pub tally : W → ℕ

-- The writer, and the metadata so far.
pub record Packing (W : Type 0) : Type 0 where
  pub tar : W
  pub files : List String
  pub size : ℕ

pub record Meta : Type 0 where
  pub files : List String
  pub size : ℕ
  pub compressed_size : ℕ

-- What a visit ends with: a result, or another tree to walk, under another name.
pub data Visited (W : Type 0) : Type 0 where
  stopped : Result Done × Packing W → Visited W
  into : String → String → Packing W → Visited W

module _ {W : Type 0} (t : Tar W) (d : Disk) (base : String) (m : RuleMatcher) where
  abbrev pub tar_call : (W → Option Error × W) → Effect (Packing W) Done
  tar_call f p = let (r, w) = call f p.tar in (r, record p { tar = w })

  -- The body of a file, whose size is counted.
  abbrev pub copied : Result ℕ × W → Packing W → Result Done × Packing W
  copied (err e, w) p = (err e, record p { tar = w })
  copied (ok n, w) p = (ok tt, record p { tar = w; size = p.size + n })

  abbrev pub counted : String → Effect (Packing W) Done
  counted name p = (ok tt, record p { files = p.files ++ (name ∷ []) })

  unfoldable pub body : String → Bool → Effect (Packing W) Done
  body path false = pure tt
  body path true = do
    wrap ("failed opening file for archiving: " <> path) (lift (d.open_file path))
    wrap ("failed copying file to archive: " <> path) (λ p. copied (t.copy path p.tar) p)

  -- The header goes before the body.
  unfoldable pub written : String → Header → Bool → Effect (Packing W) Done
  unfolding body
  written path h write_body = do
    wrap ("failed writing archive header for file: " <> path) (tar_call (t.write_header h))
    counted h.name
    body path write_body

  abbrev pub header : Info → String → TarType → ℕ → String → Header
  header info name type size link = record {
    name = name;
    mod_time = info.mod_time;
    mode = info.perm;
    type = type;
    size = size;
    link_name = link;
  }

  -- A link whose target is not in the tree, once the target is known.
  abbrev pub followed_as : FileType → Info → String → String → String → Packing W → Visited W
  followed_as directory info path subpath target p = into target path p
  followed_as _ info path subpath target p =
      stopped (written path (header info subpath tar_reg info.size "") true p)

  abbrev pub followed : String → String → String → Result Info → Packing W → Visited W
  followed path subpath target (err e) p =
      stopped (err ("failed to get file info from file: " <> (target <> (": " <> e))), p)
  followed path subpath target (ok info) p = followed_as info.type info path subpath target p

  abbrev pub with_link : Info → String → String → Option String → Packing W → Visited W
  with_link info path subpath none p =
      stopped (err ("failed to get relative path for symlink destination: " <> path), p)
  with_link info path subpath (some link) p =
      stopped (written path (header info subpath tar_symlink 0 link) false p)

  abbrev pub with_target :
      String → Bool → Info → String → String → Result String → Packing W → Visited W
  with_target src dereference info path subpath (err e) p =
      stopped (err ("failed to get symbolic link destination: " <> (path <> (": " <> e))), p)
  with_target src dereference info path subpath (ok target) p =
      if contains_text target src
      then with_link info path subpath (rel (dir path) target) p
      else if dereference
      then followed path subpath target (d.lstat target) p
      else stopped (ok tt, p)

  abbrev pub kept_as : FileType → String → Bool → Info → String → String → Packing W → Visited W
  kept_as directory src dereference info path subpath p =
      stopped (written path (header info (subpath <> "/") tar_dir 0 "") false p)
  kept_as regular src dereference info path subpath p =
      stopped (written path (header info subpath tar_reg info.size "") true p)
  kept_as symlink src dereference info path subpath p =
      with_target src dereference info path subpath (d.eval_symlinks path) p
  kept_as special src dereference info path subpath p = stopped (err "Unexpected file mode", p)

  abbrev pub with_subpath : String → Bool → Info → String → Option String → Packing W → Visited W
  with_subpath src dereference info path none p =
      stopped (err ("failed to get relative path for file: " <> path), p)
  with_subpath src dereference info path (some subpath) p =
      if subpath == "."
      then stopped (ok tt, p)
      else if (check_file_mode info.type).0
      then kept_as info.type src dereference info path subpath p
      else stopped (ok tt, p)

  -- The function that packWalkFn returns.
  unfoldable pub visit : String → String → Bool → String × Result Info → Packing W → Visited W
  unfolding written contains_text check_file_mode is_dir replace_first
  visit src dst dereference (path, err e) p = stopped (err e, p)
  visit src dst dereference (path, ok info) p =
      if match d.match_string m path (is_dir info.type)
      then stopped (ok tt, p)
      else with_subpath src dereference info path (rel base (replace_first path src dst)) p

  -- filepath.Walk: the visits in order until an error, here with the walk of another tree.
  abbrev pub after :
      (Packing W → Option (Result Done × Packing W))
      → Option (Result Done × Packing W)
      → Option (Result Done × Packing W)
  after rest none = none
  after rest (some (err e, p)) = some (err e, p)
  after rest (some (ok unit, p)) = rest p

  abbrev pub finished :
      (String → String → Packing W → Option (Result Done × Packing W))
      → Visited W
      → Option (Result Done × Packing W)
  finished recur (stopped r) = some r
  finished recur (into target path p) = recur target path p

  unfoldable pub pack_visits :
      (String → String → Packing W → Option (Result Done × Packing W))
      → String
      → String
      → Bool
      → List (String × Result Info)
      → Packing W
      → Option (Result Done × Packing W)
  unfolding visit
  pack_visits recur src dst dereference [] p = some (ok tt, p)
  pack_visits recur src dst dereference (v ∷ vs) p =
      after (pack_visits recur src dst dereference vs)
        (finished recur (visit src dst dereference v p))

  -- A tree, to a number of links between trees; none where it runs out.
  unfoldable pub pack_tree :
      ℕ → Bool → String → String → Packing W → Option (Result Done × Packing W)
  unfolding pack_visits
  pack_tree zero dereference src dst p = none
  pack_tree (suc fuel) dereference src dst p =
      pack_visits (pack_tree fuel dereference) src dst dereference (d.visits src) p

  unfoldable pub pack_trees : ℕ → List String → Packing W → Option (Result Done × Packing W)
  unfolding pack_tree
  pack_trees fuel [] p = some (ok tt, p)
  pack_trees fuel (path ∷ paths) p = after (pack_trees fuel paths) (pack_tree fuel true path path p)

  unfoldable pub ended : Packing W → Effect W Meta
  ended p = do
    wrap "failed to close tar writer" (call t.close_tar)
    wrap "failed to close gzip writer" (call t.close_gzip)
    λ w. (ok (record { files = p.files; size = p.size; compressed_size = t.tally w }), w)

  abbrev pub closed : Option (Result Done × Packing W) → Option (Result Meta × W)
  closed none = none
  closed (some (err e, p)) = some (err e, p.tar)
  closed (some (ok unit, p)) = some (ended p p.tar)

  -- `Pack`, with the ignore rules of the base.
  unfoldable pub pack : ℕ → List String → W → Option (Result Meta × W)
  unfolding pack_trees ended
  pack fuel mods w =
      closed (pack_trees fuel (remove_nested_paths mods) (record { tar = w; files = []; size = 0 }))
