-- ===== src/Base/FilePath.antt =====
-- Go's path/filepath on a Unix system, and strconv on natural numbers and Booleans, as far as the
-- program uses them.
use Prim.Native.Char.{code}
use etok.Base.Tests.{◌==◌, nat_eq, ltb, if◌then◌else◌}
use etok.Base.Lists.{filter}
use etok.Base.Text.{split, join}
use Prim.Native.Nat.{ℕ, zero, suc, ◌/◌, ◌%◌}
use Prim.Native.String.{String, ◌++◌}
use mathlib.Core.Bool.{Bool, true, false, not, ◌||◌}
use mathlib.Core.Option.{Option, none, some}
use mathlib.Core.List.{List, [], ◌∷◌, reverse}

abbrev is_rooted : String → Bool
is_rooted String.[] = false
is_rooted (String.◌∷◌ c s) = nat_eq (code c) b'/'

-- What `..` does to the elements kept so far, last first.
abbrev pop : Bool → List String → List String
pop true [] = []
pop false [] = ".." ∷ []
pop rooted (x ∷ kept) = if x == ".." then ".." ∷ x ∷ kept else kept

clean_loop : Bool → List String → List String → List String
clean_loop rooted [] kept = reverse kept
clean_loop rooted (x ∷ rest) kept =
    clean_loop rooted rest
      (if x == "" || x == "." then kept else if x == ".." then pop rooted kept else x ∷ kept)

abbrev bool_eq : Bool → Bool → Bool
bool_eq true b = b
bool_eq false b = not b

abbrev or_dot : String → String
or_dot s = if s == "" then "." else s

-- filepath.Clean
unfoldable pub clean : String → String
unfolding clean_loop split join
clean s =
    let elements = join (clean_loop (is_rooted s) (split b'/' s) []) "/" in
    if is_rooted s then "/" ++ elements else or_dot elements

-- filepath.Join: empty elements are dropped, and no element at all gives the empty text.
abbrev join_kept : List String → String
join_kept [] = ""
join_kept (x ∷ xs) = clean (join (x ∷ xs) "/")

unfoldable pub path_join : List String → String
unfolding clean join
path_join elements = join_kept (filter (λ e. not (e == "")) elements)

-- filepath.IsAbs
abbrev pub is_abs : String → Bool
is_abs s = is_rooted s

drop_last : List String → List String
drop_last [] = []
drop_last (x ∷ []) = []
drop_last (x ∷ y ∷ xs) = x ∷ drop_last (y ∷ xs)

-- filepath.Dir
unfoldable pub dir : String → String
unfolding clean drop_last split join
dir s =
    let before = join (drop_last (split b'/' s)) "/" in
    if is_rooted s then clean ("/" ++ before) else clean before

-- The elements of a clean path; the root and the current directory have none.
abbrev elements : String → List String
elements s = filter (λ e. not (e == "" || e == ".")) (split b'/' s)

strip : List String → List String → List String × List String
strip [] targ = ([], targ)
strip (x ∷ base) [] = (x ∷ base, [])
strip (x ∷ base) (y ∷ targ) =
    let rest = strip base targ in if x == y then rest else (x ∷ base, y ∷ targ)

abbrev is_up : List String → Bool
is_up [] = false
is_up (x ∷ base) = x == ".."

up : List String → List String → List String
up [] targ = targ
up (x ∷ base) targ = ".." ∷ up base targ

-- filepath.Rel; none is its error.
unfoldable pub rel : String → String → Option String
unfolding clean strip up split join
rel base targ =
    let (b, t) = strip (elements (clean base)) (elements (clean targ)) in
    if not (bool_eq (is_rooted base) (is_rooted targ))
    then none
    else if is_up b
    then none
    else some (or_dot (join (up b t) "/"))

-- strconv.FormatBool
abbrev pub format_bool : Bool → String
format_bool true = "true"
format_bool false = "false"

abbrev pub digit : ℕ → String
digit n =
    if nat_eq n 0
    then "0"
    else if nat_eq n 1
    then "1"
    else if nat_eq n 2
    then "2"
    else if nat_eq n 3
    then "3"
    else if nat_eq n 4
    then "4"
    else if nat_eq n 5
    then "5"
    else if nat_eq n 6
    then "6"
    else if nat_eq n 7
    then "7"
    else if nat_eq n 8
    then "8"
    else "9"

-- strconv.Itoa at a number that is not negative; a number has no more digits than its value plus
-- one, so the fuel is enough.
unfoldable pub itoa_loop : ℕ → ℕ → String → String
itoa_loop zero n out = out
itoa_loop (suc fuel) n out =
    let rest = itoa_loop fuel (n / 10) (digit (n % 10) ++ out) in
    if ltb n 10 then digit n ++ out else rest

unfoldable pub itoa : ℕ → String
unfolding itoa_loop
itoa n = itoa_loop (suc n) n ""
