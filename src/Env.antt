-- ===== src/Env.antt =====
-- pkg/env/env.go: the environment file, on its content; the file system is left out.
pub mod File
use Prim.Native.Char.{Char}
use etok.Base.{String, ◌<>◌, false, ◌≡◌, refl, Option, none, some, List, [], ◌∷◌}
use etok.Base.Text.{split, has_char, split-sep, split_plain}

pub record Env : Type 0 where
  pub namespace : String
  pub workspace : String

-- What is written into the file.
unfoldable pub string : Env → String
string e = e.namespace <> ("/" <> e.workspace)

abbrev two_parts : List String → Option Env
two_parts (a ∷ b ∷ []) = some (record { namespace = a; workspace = b })
two_parts _ = none

-- What is read from it; `none` is the error that its format is invalid.
unfoldable pub read : String → Option Env
read content = two_parts (split b'/' content)

-- What is written is read back, if the names have no slash (Kubernetes admits none).
pub read-string :
    (e : Env)
    → has_char b'/' e.namespace ≡ false
    → has_char b'/' e.workspace ≡ false
    → read (string e) ≡ some e
unfolding read string
read-string e n w =
    let slash : Char = "/" in
    rw (split-sep slash e.namespace e.workspace n, split_plain b'/' e.workspace w) refl
