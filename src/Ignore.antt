-- ===== src/Ignore.antt =====
-- pkg/archive/terraformignore.go: the rules of a .terraformignore file, and what they exclude.
pub mod Laws
use etok.Base.{
  ℕ, nat_eq, leb, ◌&&◌, ◌||◌, String, ◌<>◌, Bool, true, false, not, Option, none, some, List, [],
  ◌∷◌, ◌++◌, ◌==◌, if◌then◌else◌,
}
use etok.Base.Text.{split}
use Prim.Native.Char.{Char, code}

-- The path separator of the systems the operator runs on.
abbrev pub separator : ℕ
separator = 47

abbrev text : Char → String
text c = String.◌∷◌ c String.[]

pub record Rule : Type 0 where
  pub val : String
  pub excluded : Bool
  pub dirs : List String

abbrev pub default_exclusions : List Rule
default_exclusions =
    record { val = "**/.git/**"; excluded = false; dirs = [] }
    ∷ record { val = "**/.terraform/**"; excluded = false; dirs = [] }
    ∷ record { val = "**/.terraform/modules/**"; excluded = true; dirs = [] }
    ∷ []

-- The first and the last character: none where the code reads out of range.
abbrev head : String → Option ℕ
head String.[] = none
head (String.◌∷◌ c s) = some (code c)

abbrev tail : String → String
tail String.[] = ""
tail (String.◌∷◌ c s) = s

abbrev last_from : ℕ → String → ℕ
last_from c String.[] = c
last_from c (String.◌∷◌ d s) = last_from (code d) s

abbrev last : String → Option ℕ
last String.[] = none
last (String.◌∷◌ c s) = some (last_from (code c) s)

abbrev is_space : ℕ → Bool
is_space c =
    nat_eq c 32
    || nat_eq c 9
    || nat_eq c 10
    || nat_eq c 11
    || nat_eq c 12
    || nat_eq c 13
    || nat_eq c 133
    || nat_eq c 160
    || nat_eq c 5760
    || (leb 8192 c && leb c 8202)
    || nat_eq c 8232
    || nat_eq c 8233
    || nat_eq c 8239
    || nat_eq c 8287
    || nat_eq c 12288

abbrev trim_left : String → String
trim_left String.[] = ""
trim_left (String.◌∷◌ c s) =
    let rest = trim_left s in if is_space (code c) then rest else String.◌∷◌ c s

abbrev trim_right : String → String
trim_right String.[] = ""
trim_right (String.◌∷◌ c s) =
    let rest = trim_right s in
    if is_space (code c) then (if rest == "" then "" else String.◌∷◌ c rest) else String.◌∷◌ c rest

-- strings.TrimSpace
abbrev pub trim_space : String → String
trim_space s = trim_left (trim_right s)

-- The rest of the body of the loop, once the exclamation mark is taken off.
unfoldable pub path_rule : Bool → String → Option Rule
path_rule excluded pattern = elim (last pattern) [
  | none ↦ none
  | some c ↦ anchored (if nat_eq c separator then pattern <> "**" else pattern)
]
  where
    with_val : String → Rule
    with_val val = record { val = val; excluded = excluded; dirs = split separator val }

    anchored : String → Option Rule
    anchored p = elim (head p) [
      | none ↦ none
      | some c ↦ some (with_val (if nat_eq c separator then tail p else "**/" <> p))
    ]

pub data Line : Type 0 where
  skipped : Line
  added : Rule → Line
  panicked : Line

abbrev line_of : Option Rule → Line
line_of none = panicked
line_of (some rule) = added rule

-- The body of the loop, on one line.
unfoldable pub read_line : String → Line
unfolding path_rule
read_line pattern =
    let p = trim_space pattern in
    if pattern == "" then skipped else elim (head p) [
      | none ↦ panicked
      | some c ↦
          if nat_eq c b'#'
          then skipped
          else line_of (if nat_eq c b'!' then path_rule true (tail p) else path_rule false p)
    ]

-- The loop: none where it panics.
unfoldable pub scan_loop : List Rule → List String → Option (List Rule)
scan_loop rules [] = some rules
scan_loop rules (line ∷ lines) = elim (read_line line) [
  | skipped ↦ scan_loop rules lines
  | added rule ↦ scan_loop (rules ++ (rule ∷ [])) lines
  | panicked ↦ none
]

-- The scanner gives the lines, and whether it ended with an error.
unfoldable pub read_rules : List String → Bool → Option (List Rule)
unfolding scan_loop
read_rules lines failed = elim (scan_loop default_exclusions lines) [
  | none ↦ none
  | some rules ↦ some (if failed then default_exclusions else rules)
]

-- What the loop of `compile` writes for a text, for its tail, and for the tail of its tail.
record Written : Type 0 where
  all : String
  but_one : String
  but_two : String

-- After two stars and the separator that they eat.
abbrev stars : Bool → String → String
stars at_end rest = (if at_end then ".*" else "(.*/)?") <> rest

abbrev after_stars : String → Written → String
after_stars String.[] w = stars true w.but_one
after_stars (String.◌∷◌ d t) w =
    if nat_eq (code d) separator then stars (t == "") w.but_two else stars false w.but_one

abbrev after_star : String → Written → String
after_star String.[] w = "[^/]*" <> w.all
after_star (String.◌∷◌ d t) w = if nat_eq (code d) b'*' then after_stars t w else "[^/]*" <> w.all

abbrev after_escape : String → Written → String
after_escape String.[] w = "\\" <> w.all
after_escape (String.◌∷◌ d t) w = "\\" <> (text d <> w.but_one)

-- One round of the loop: the character read, and what follows it.
abbrev write_char : Char → String → Written → String
write_char c s w =
    if nat_eq (code c) b'*'
    then after_star s w
    else if nat_eq (code c) b'?'
    then "[^/]" <> w.all
    else if nat_eq (code c) b'.' || nat_eq (code c) b'$'
    then "\\" <> (text c <> w.all)
    else if nat_eq (code c) b'\\'
    then after_escape s w
    else text c <> w.all

write_loop : String → Written
write_loop String.[] = record { all = ""; but_one = ""; but_two = "" }
write_loop (String.◌∷◌ c s) =
    let w = write_loop s in record { all = write_char c s w; but_one = w.all; but_two = w.but_one }

-- The expression that `compile` hands to the compiler of expressions.
unfoldable pub compile : String → String
unfolding write_loop
compile val = "^" <> ((write_loop val).all <> "$")

-- An expression is compiled and matched by the regexp package: none where it does not compile.
module _ (match_string : String → String → Option Bool) where
  matched : Option Bool → Bool
  matched none = false
  matched (some b) = b

  unfoldable pub match : Rule → String → Bool
  unfolding matched
  match rule path = matched (match_string (compile rule.val) path)

  match_loop : Bool → String → List Rule → Bool
  match_loop m path [] = m
  match_loop m path (rule ∷ rules) =
      match_loop (if match rule path then not rule.excluded else m) path rules

  unfoldable pub match_ignore_rule : String → List Rule → Bool
  unfolding match_loop
  match_ignore_rule path rules = match_loop false path rules
