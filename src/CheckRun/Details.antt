-- ===== src/CheckRun/Details.antt =====
-- `details` of cmd/github/check_run_update.go: the logs of a run, cut to what Github takes.
pub mod Laws
use Prim.Native.Char.{code}
use etok.Base.{
  ℕ, ◌+◌, ◌-◌, String, ◌<>◌, Bool, true, false, ◌||◌, Option, none, some, List, [], ◌∷◌, ◌++◌,
  if◌then◌else◌, nat_eq, leb, ltb, length, drop,
}
use etok.Base.FilePath.{itoa}
use etok.Api.Meta.{ConditionApi}
use etok.CheckRun.{is_some}
use etok.CheckRun.Update.{CheckRunUpdate, Matchers, failure_message}

-- The bytes of an ASCII text.
unfoldable pub bytes : String → List ℕ
bytes String.[] = []
bytes (String.◌∷◌ c s) = code c ∷ bytes s

abbrev pub text_start : List ℕ
text_start = 96 ∷ 96 ∷ 96 ∷ 116 ∷ 101 ∷ 120 ∷ 116 ∷ 10 ∷ []

abbrev pub text_end : List ℕ
text_end = 10 ∷ 96 ∷ 96 ∷ 96 ∷ 10 ∷ []

-- bytes.IndexByte(out, '\n'), and what follows the byte.
unfoldable pub skip_line : List ℕ → List ℕ
skip_line [] = []
skip_line (b ∷ out) = let rest = skip_line out in if nat_eq b 10 then out else rest

unfoldable pub has_newline : List ℕ → Bool
has_newline [] = false
has_newline (b ∷ out) = let rest = has_newline out in if nat_eq b 10 then true else rest

unfoldable pub trim_left : List ℕ → List ℕ
trim_left [] = []
trim_left (b ∷ out) = let rest = trim_left out in if nat_eq b 10 then rest else b ∷ out

abbrev pub unless_newline : ℕ → List ℕ → List ℕ
unless_newline b [] = if nat_eq b 10 then [] else b ∷ []
unless_newline b (c ∷ out) = b ∷ c ∷ out

unfoldable pub trim_right : List ℕ → List ℕ
trim_right [] = []
trim_right (b ∷ out) = unless_newline b (trim_right out)

-- `crashed` is the panic of a slice out of bounds.
pub data Details : Type 0 where
  absent crashed : Details
  details_text : List ℕ → Details

unfoldable pub exceeded : ℕ → ℕ → List ℕ
unfolding bytes
exceeded max start = bytes (
    "--- exceeded limit of "
    <> (itoa max <> (" bytes; skipping first " <> (itoa start <> " bytes ---\n"))))

-- The position is `len(out) - max + len(textStart) + len(textEnd)`, which is positive here.
abbrev pub start_of : ℕ → List ℕ → ℕ
start_of max out = length out + 8 + 5 - max

abbrev pub body : List ℕ → List ℕ → List ℕ
body message lines = text_start ++ message ++ trim_right (trim_left lines) ++ text_end

-- Not to start half way through a line.
abbrev pub whole_lines : List ℕ → List ℕ
whole_lines rest = if has_newline rest then skip_line rest else rest

unfoldable pub cut : List ℕ → ℕ → List ℕ → Details
unfolding skip_line has_newline trim_left trim_right
cut message start out =
    if ltb (length out) start
    then crashed
    else details_text (body message (whole_lines (drop start out)))

unfoldable pub shorten : ℕ → List ℕ → Details
unfolding exceeded cut
shorten max out =
    let message = exceeded max (start_of max out) in
    cut message (start_of max out + length message) out

unfoldable pub fit : Matchers → ℕ → List ℕ → Details
unfolding shorten
fit x max out =
    if leb (8 + length out + 5) max
    then details_text (text_start ++ x.trim_space out ++ text_end)
    else shorten max out

unfoldable pub details : Matchers → ConditionApi → CheckRunUpdate → Details
unfolding failure_message fit
details x m u =
    if is_some u.reconcile_err || is_some (failure_message m u)
    then absent
    else if nat_eq (length u.logs) 0
    then absent
    else fit x u.max_field_size (if u.strip_refreshing then x.remove_refreshing u.logs else u.logs)
