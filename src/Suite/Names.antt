-- ===== src/Suite/Names.antt =====
-- The names of check runs: two of them are equal only for the same suite, rerequest and workspace.
use Prim.Native.Char.{Char}
use etok.Base.{ℕ, String, ◌≡◌, ◌∙◌, ap, sym, List, [], ◌∷◌}
use etok.Base.Text.{split, join, split-sep, join-split}
use etok.Base.FilePath.{itoa}
use etok.Base.Digits.{itoa_injective, has_char-itoa}
use etok.Suite.{check_run_name}

-- The parts of a name between its dashes; a workspace may have dashes of its own.
split-check_run_name :
    (suite rerequest : ℕ) (workspace : String)
    → split b'-' (check_run_name suite rerequest workspace)
      ≡ itoa suite ∷ itoa rerequest ∷ split b'-' workspace
unfolding check_run_name
split-check_run_name suite rerequest workspace =
    let dash : Char = "-" in
    split-sep dash (itoa suite) _ (has_char-itoa suite)
    ∙ ap (λ parts. itoa suite ∷ parts)
        (split-sep dash (itoa rerequest) workspace (has_char-itoa rerequest))

abbrev first : List String → String
first [] = ""
first (x ∷ xs) = x

abbrev rest : List String → List String
rest [] = []
rest (x ∷ xs) = xs

-- Check runs of different suites, rerequests or workspaces have different names.
pub check_run_name_injective :
    (suite suite' rerequest rerequest' : ℕ) (workspace workspace' : String)
    → check_run_name suite rerequest workspace ≡ check_run_name suite' rerequest' workspace'
    → (suite ≡ suite') × (rerequest ≡ rerequest') × (workspace ≡ workspace')
check_run_name_injective suite suite' rerequest rerequest' workspace workspace' e =
    let dash : Char = "-" in
    let parts =
      sym (split-check_run_name suite rerequest workspace)
      ∙ (ap (split b'-') e ∙ split-check_run_name suite' rerequest' workspace') in
    (
      itoa_injective suite suite' (ap first parts),
      itoa_injective rerequest rerequest' (ap (λ ps. first (rest ps)) parts),
      sym (join-split dash workspace)
          ∙ (ap (λ ps. join (rest (rest ps)) "-") parts ∙ join-split dash workspace'),
    )
