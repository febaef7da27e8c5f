-- ===== src/Archive/Unpack.antt =====
-- pkg/archive/archive.go: the extraction of an archive. The decompression and the tar format answer
-- the entries, and what the stream ends with.
pub mod Laws
use Prim.Native.Char.{code}
use etok.Base.{ℕ, String, ◌<>◌, Option, none, some, List, [], ◌∷◌, nat_eq, if◌then◌else◌}
use etok.Base.FilePath.{path_join, dir}
use etok.Kube.{Error, Result, ok, err}
use etok.Kube.Effect.{Effect, Done, pure, raise, call, wrap, ◌>>=◌, ◌>>◌}
use etok.Archive.Pack.{Header, TarType, tar_dir, tar_reg, tar_reg_a, tar_symlink, tar_other}

pub record Entry : Type 0 where
  pub header : Header
  pub content : String

-- What os.Create ends with.
pub data Created : Type 0 where
  created : Created
  forbidden not_created : Error → Created

pub record Target (S : Type 0) : Type 0 where
  pub make_dirs : String → S → Option Error × S
  pub link : String → String → S → Option Error × S
  pub create : String → S → Created × S
  pub chmod : String → ℕ → S → Option Error × S
  pub write : String → String → S → Option Error × S

-- The path of an entry; none is the panic of an empty name.
unfoldable pub entry_path : String → String → Option String
entry_path dst String.[] = none
entry_path dst (String.◌∷◌ c name) =
    some (path_join (dst ∷ (if nat_eq (code c) 47 then name else String.◌∷◌ c name) ∷ []))

module _ {S : Type 0} (d : Target S) where
  abbrev pub create_error : String → Created × S → Result Done × S
  create_error path (created, s) = (ok tt, s)
  create_error path (forbidden e, s) = (err ("failed creating file: " <> (path <> (": " <> e))), s)
  create_error path (not_created e, s) =
      (err ("failed creating file: " <> (path <> (": " <> e))), s)

  -- A file that may not be overwritten is made writable, and created again.
  abbrev pub recreated : String → Created × S → Result Done × S
  recreated path (forbidden e, s) = create_error path (d.create path (d.chmod path 384 s).1)
  recreated path (r, s) = create_error path (r, s)

  unfoldable pub create_file : String → Effect S Done
  create_file path s = recreated path (d.create path s)

  unfoldable pub extract_file : String → Header → String → Effect S Done
  unfolding create_file
  extract_file path h content = do
    create_file path
    wrap ("failed to copy slug file: " <> path) (call (d.write path content))
    wrap ("failed setting permissions: " <> path) (call (d.chmod path h.mode))

  abbrev pub extract_as : TarType → String → Header → String → Effect S Done
  extract_as tar_symlink path h content =
      wrap ("failed creating symlink: " <> path) (call (d.link h.link_name path))
  extract_as tar_dir path h content = pure tt
  extract_as tar_reg path h content = extract_file path h content
  extract_as tar_reg_a path h content = extract_file path h content
  extract_as (tar_other type) path h content = raise ("failed creating: unsupported type: " <> path)

  unfoldable pub extract : String → Entry → Effect S Done
  unfolding extract_file
  extract path e = do
    wrap ("failed to create directory: " <> dir path) (call (d.make_dirs (dir path)))
    extract_as e.header.type path e.header e.content

  abbrev pub after_entry :
      (S → Option (Result Done × S)) → Result Done × S → Option (Result Done × S)
  after_entry rest (err e, s) = some (err e, s)
  after_entry rest (ok unit, s) = rest s

  abbrev pub with_path :
      (S → Option (Result Done × S)) → Entry → S → Option String → Option (Result Done × S)
  with_path rest e s none = none
  with_path rest e s (some path) = after_entry rest (extract path e s)

  abbrev end_of : Option Error → S → Result Done × S
  end_of none s = (ok tt, s)
  end_of (some e) s = (err ("failed to untar archive: " <> e), s)

  -- The loop over the entries.
  unfoldable pub unpack_entries : String → List Entry → Option Error → S → Option (Result Done × S)
  unfolding extract entry_path
  unpack_entries dst [] end s = some (end_of end s)
  unpack_entries dst (e ∷ entries) end s =
      with_path (unpack_entries dst entries end) e s (entry_path dst e.header.name)

  -- `Unpack`: a reader that is no gzip stream is an error.
  unfoldable pub unpack : Result (List Entry × Option Error) → String → S → Option (Result Done × S)
  unfolding unpack_entries
  unpack (err e) dst s = some (err ("failed to uncompress slug: " <> e), s)
  unpack (ok (entries, end)) dst s = unpack_entries dst entries end s
