-- ===== src/Env/File.antt =====
-- pkg/env/env.go: the environment file of a root module.
use etok.Base.{String, ◌<>◌, Option, none, some, [], ◌∷◌}
use etok.Base.FilePath.{path_join, dir}
use etok.Kube
use etok.Kube.{Error, Get, Result, ok, err}
use etok.Kube.Effect.{Effect, Done, call, ◌>>◌}
use etok.Env.{Env, string, read}

-- The file system: a directory that exists is made again without an error.
pub record Files (S : Type 0) : Type 0 where
  pub make_dir : String → S → Option Error × S
  pub write_file : String → String → S → Option Error × S
  pub read_file : String → S → Get String

unfoldable pub environment_file : String → String
environment_file path = path_join (path ∷ ".terraform/environment" ∷ [])

module _ {S : Type 0} (f : Files S) where
  unfoldable pub write_env : String → Env → Effect S Done
  unfolding environment_file
  write_env path e = do
    call (f.make_dir (dir (environment_file path)))
    call (f.write_file (environment_file path) (string e))

  abbrev pub parsed : String → Option Env → Result Env
  parsed path none = err (path <> ": invalid format, expecting <namespace>/<workspace>")
  parsed path (some e) = ok e

  -- None where there is no file.
  abbrev pub with_content : String → Get String → Result (Option Env)
  with_content path Kube.Get.not_found = ok none
  with_content path (Kube.Get.failed e) = err e
  with_content path (Kube.Get.found content) = elim (parsed path (read content)) [
    | err e ↦ err e
    | ok e ↦ ok (some e)
  ]

  -- `Read`, with the error of a missing file told apart.
  unfoldable pub read_env : String → S → Result (Option Env)
  unfolding environment_file
  read_env path s = with_content (environment_file path) (f.read_file (environment_file path) s)
