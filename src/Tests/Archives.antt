-- ===== src/Tests/Archives.antt =====
-- The making and the extraction of archives, at concrete inputs.
use etok.Base.{
  ap, sym, ◌∙◌, ◌≡◌, ◌≢◌, refl, inl, ℕ, String, Bool, true, false, Option, none, some, List, [],
  ◌∷◌, ◌++◌, ◌==◌, ==_refl, ==_of_ne, if◌then◌else◌,
}
use etok.Base.FilePath.{path_join, dir}
use etok.Kube.{Result, ok, err}
use etok.Kube.Effect.{Done}
use etok.Archive.{RuleMatcher}
use etok.Archive.Pack.{
  FileType, directory, regular, symlink, Info, TarType, tar_dir, tar_reg, Header, Disk, Tar,
}
use etok.Archive.Unpack.{Entry, created, Target, entry_path, unpack}
use etok.Tests.Data.{ne}
use etok.Archive.Unpack.Laws.{IsDisk, Elsewhere, unpack-stores}

-- A tar writer that keeps its headers.
abbrev tar : Tar (List Header)
tar = record {
  write_header = λ h w. (none, w ++ (h ∷ []));
  copy = λ path w. (ok 1, w);
  close_tar = λ w. (none, w);
  close_gzip = λ w. (none, w);
  tally = λ w. 0;
}

abbrev info : FileType → Result Info
info type = ok (record { type = type; perm = 420; mod_time = 1; size = 1 })

abbrev tree : Bool → Bool → List (String × Result Info)
tree true _ =
    ("/base", info directory) ∷ ("/base/main.tf", info regular) ∷ ("/base/link", info symlink) ∷ []
tree false true = ("/ext", info directory) ∷ ("/ext/e.tf", info regular) ∷ []
tree false false = []

-- A module with a link to a directory outside.
abbrev disk : Disk
disk = record {
  visits = λ path. tree (path == "/base") (path == "/ext");
  eval_symlinks = λ path. if path == "/base/link" then ok "/ext" else err "no link";
  lstat = λ path. info directory;
  open_file = λ path. ok tt;
  match_string = λ expression path. some false;
}

abbrev rules : RuleMatcher
rules = record { rules = []; base = "/base" }

abbrev rank : String → ℕ
rank path = if path == "/base" then 1 else 0

abbrev target_or : Result String → String
target_or (ok target) = target
target_or (err e) = ""

-- A file system as a function.
abbrev FileSystem : Type 0
FileSystem = String → Option (String × ℕ)

abbrev put : String → Option (String × ℕ) → FileSystem → FileSystem
put p v s q = if q == p then v else s q

abbrev with_mode : ℕ → Option (String × ℕ) → Option (String × ℕ)
with_mode n none = none
with_mode n (some (c, k)) = some (c, n)

abbrev files : Target FileSystem
files = record {
  make_dirs = λ p s. (none, s);
  link = λ name p s. (none, s);
  create = λ p s. (created, put p (some ("", 438)) s);
  chmod = λ p n s. (none, put p (with_mode n (s p)) s);
  write = λ p c s. (none, put p (some (c, 438)) s);
}

put_other : (p q : String) (v : Option (String × ℕ)) (s : FileSystem) → q ≢ p → put p v s q ≡ s q
put_other p q v s other = rw (==_of_ne other) refl

put_same : (p : String) (v : Option (String × ℕ)) (s : FileSystem) → put p v s p ≡ v
put_same p v s = rw (==_refl p) refl

files-IsDisk : IsDisk files (λ q s. s q)
files-IsDisk = record {
  make_dirs-keeps = λ p q s. refl;
  create-keeps = λ p q s other. put_other p q _ s other;
  write-keeps = λ p q c s other. put_other p q _ s other;
  chmod-keeps = λ p q n s other. put_other p q _ s other;
  write-stores = λ p c s t h. (438, ap (λ x. x.1 p) (sym h) ∙ put_same p _ s);
  chmod-stores =
      λ p c n k s t h stored. ap (λ x. x.1 p) (sym h) ∙ (put_same p _ s ∙ ap (with_mode n) stored);
}

abbrev entry : String → TarType → String → Entry
entry name type content = record {
  header = record { name = name; mod_time = 1; mode = 420; type = type; size = 1; link_name = "" };
  content = content;
}

abbrev entries : List Entry
entries = entry "m/" tar_dir "" ∷ entry "/m/a.tf" tar_reg "x" ∷ entry "b.tf" tar_reg "y" ∷ []

abbrev no_files : FileSystem
no_files = λ q. none

abbrev state_of : Option (Result Done × FileSystem) → FileSystem
state_of none = no_files
state_of (some (r, s)) = s

abbrev path_of : Option String → String
path_of none = ""
path_of (some path) = path

elsewhere :
    Elsewhere files (λ q s. s q) files-IsDisk "/dst" "/dst/m/a.tf" (entry "b.tf" tar_reg "y" ∷ [])
unfolding entry_path path_join
elsewhere = (((λ e. cc), (λ e. ne "/dst/b.tf" "/dst/m/a.tf" refl (ap path_of e))), tt)

unpack-stores_example :
    state_of (unpack files (ok (entries, none)) "/dst" no_files) "/dst/m/a.tf" ≡ some ("x", 420)
unfolding unpack path_join dir
unpack-stores_example =
    unpack-stores files (λ q s. s q) files-IsDisk "/dst" "/dst/m/a.tf" (entry "m/" tar_dir "" ∷ [])
      (entry "b.tf" tar_reg "y" ∷ []) (entry "/m/a.tf" tar_reg "x") none no_files
      (state_of (unpack files (ok (entries, none)) "/dst" no_files)) refl (inl refl) refl elsewhere
