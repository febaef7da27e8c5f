-- ===== src/Archive/Pack/Writing.antt =====
-- What the tar format does, and what the writing of one file keeps.
use etok.Base.{
  ap, sym, subst, ◌∙◌, ◌⊎◌, ◌≡◌, refl, ℕ, String, ◌<>◌, Bool, true, false, Option, none, some, List,
  [], ◌∷◌, ◌++◌, All,
}
use etok.Base.FilePath.{rel}
use etok.Kube.{Error, Result, ok, err}
use etok.Kube.Effect.{Done, lift, wrap, ◌>>◌}
use etok.Archive.{RuleMatcher, match}
use etok.Base.Text.{replace_first}
use etok.Archive.Pack.{is_dir, Info, Header, Disk, Tar, Packing, written, body, copied, tar_call}

-- What the tar format does: a header that is written stands behind those before it, and a body or
-- the end of the archive adds none.
pub record IsTar {W : Type 0} (t : Tar W) (headers : W → List Header) : Type 0 where
  pub write_header-adds :
      (h : Header) (w w' : W) → t.write_header h w ≡ (none, w') → headers w' ≡ headers w ++ (h ∷ [])
  pub copy-keeps :
      (path : String) (w w' : W) (n : ℕ) → t.copy path w ≡ (ok n, w') → headers w' ≡ headers w
  pub close_tar-keeps : (w w' : W) → t.close_tar w ≡ (none, w') → headers w' ≡ headers w
  pub close_gzip-keeps : (w w' : W) → t.close_gzip w ≡ (none, w') → headers w' ≡ headers w

abbrev pub names : List Header → List String
names [] = []
names (h ∷ hs) = h.name ∷ names hs

names-append : (hs : List Header) (h : Header) → names (hs ++ (h ∷ [])) ≡ names hs ++ (h.name ∷ [])
names-append [] h = refl
names-append (x ∷ hs) h = rw (names-append hs h)

All-append :
    (P : Header → Type 0) (hs : List Header) (h : Header) → All P hs → P h → All P (hs ++ (h ∷ []))
All-append P [] h all last = (last, tt)
All-append P (x ∷ hs) h all last = (all.0, All-append P hs h all.1 last)

module _ {W : Type 0} (t : Tar W) (headers : W → List Header) (i : IsTar t headers) (d : Disk)
    (base : String) (m : RuleMatcher) where
  -- A header that names a file, relative to the base, that no rule ignores.
  abbrev pub IsAllowed : Header → Type 0
  IsAllowed h =
      (src dst path subpath : String) × (info : Info) × (match d.match_string m path
          (is_dir info.type)
        ≡ false)
      × (rel base (replace_first path src dst) ≡ some subpath)
      × ((h.name ≡ subpath) ⊎ (h.name ≡ subpath <> "/"))

  abbrev pub IsListed : List String → W → Type 0
  IsListed files w = (files ≡ names (headers w)) × All IsAllowed (headers w)

  abbrev pub Kept : Packing W → Type 0
  Kept p = IsListed p.files p.tar

  -- A result that is no error keeps the list.
  abbrev pub KeptIf : Result Done × Packing W → Type 0
  KeptIf (err e, p) = Unit
  KeptIf (ok unit, p) = Kept p

  copied-KeptIf :
      (text path : String) (p : Packing W) (x : Result ℕ × W)
      → t.copy path p.tar ≡ x
      → Kept p
      → KeptIf (wrap text (λ p. copied t d base m x p) p)
  copied-KeptIf text path p (err e, w) called k = tt
  copied-KeptIf text path p (ok n, w) called k =
      let same = i.copy-keeps path p.tar w n called in
      (k.0 ∙ ap names (sym same), subst (All IsAllowed) (sym same) k.1)

  body-KeptIf :
      (path : String) (b : Bool) (p : Packing W) → Kept p → KeptIf (body t d base m path b p)
  unfolding body
  body-KeptIf path false p k = k
  body-KeptIf path true p k = go (d.open_file path)
    where
      go :
          (x : Result Done)
          → KeptIf (
              (wrap ("failed opening file for archiving: " <> path) (lift x)
                  >> wrap
                      ("failed copying file to archive: " <> path)
                      (λ p. copied t d base m (t.copy path p.tar) p))
                p)
      go (err e) = tt
      go (ok unit) = copied-KeptIf _ path p (t.copy path p.tar) refl k

  pub written-KeptIf :
      (path : String) (h : Header) (b : Bool) (p : Packing W)
      → Kept p
      → IsAllowed h
      → KeptIf (written t d base m path h b p)
  unfolding written
  written-KeptIf path h b p k allowed = go (t.write_header h p.tar) refl
    where
      go :
          (x : Option Error × W)
          → t.write_header h p.tar ≡ x
          → KeptIf (
              (wrap
                    ("failed writing archive header for file: " <> path)
                    (tar_call t d base m (λ _. x))
                  >> (λ p. body t d base m path b (record p { files = p.files ++ (h.name ∷ []) })))
                p)
      go (some e, w) called = tt
      go (none, w) called =
          let grown = i.write_header-adds h p.tar w called in
          body-KeptIf path b (record p { tar = w; files = p.files ++ (h.name ∷ []) })
            (
              ap (λ fs. fs ++ (h.name ∷ [])) k.0
                  ∙ (sym (names-append (headers p.tar) h) ∙ ap names (sym grown)),
              subst (All IsAllowed) (sym grown)
                  (All-append IsAllowed (headers p.tar) h k.1 allowed),
            )
