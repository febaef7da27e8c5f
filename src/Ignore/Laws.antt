-- ===== src/Ignore/Laws.antt =====
-- The rules of a .terraformignore file: the last rule that matches decides, and the lines on which
-- the reading panics.
use etok.Base.{
  ◌≡◌, refl, String, Bool, false, not, Option, none, List, [], ◌∷◌, ◌++◌, ◌==◌, if◌then◌else◌,
}
use etok.Ignore.{
  Rule, default_exclusions, trim_space, read_line, scan_loop, read_rules, panicked, skipped, added,
  Line, match, match_loop, match_ignore_rule,
}

match_loop-append :
    (match_string : String → String → Option Bool) (m : Bool) (path : String) (rules : List Rule)
    (rule : Rule)
    → match_loop match_string m path (rules ++ (rule ∷ [])) ≡ (
        if match match_string rule path
        then not rule.excluded
        else match_loop match_string m path rules)
unfolding match_loop
match_loop-append match_string m path [] rule = refl
match_loop-append match_string m path (r ∷ rules) rule =
    match_loop-append match_string (if match match_string r path then not r.excluded else m) path
      rules rule

-- The last of the rules decides about a path that it matches: the path is skipped unless the rule
-- is an exclusion. About another path the rules before it decide.
pub match_ignore_rule-append :
    (match_string : String → String → Option Bool) (path : String) (rules : List Rule) (rule : Rule)
    → match_ignore_rule match_string path (rules ++ (rule ∷ [])) ≡ (
        if match match_string rule path
        then not rule.excluded
        else match_ignore_rule match_string path rules)
unfolding match_ignore_rule
match_ignore_rule-append match_string path rules rule =
    match_loop-append match_string false path rules rule

read_line-blank :
    (line : String) → (line == "") ≡ false → trim_space line ≡ "" → read_line line ≡ panicked
unfolding read_line
read_line-blank line given blank = rw (given, blank) refl

scan_loop-panics :
    (rules : List Rule) (before : List String) (line : String) (after : List String)
    → read_line line ≡ panicked
    → scan_loop rules (before ++ (line ∷ after)) ≡ none
unfolding scan_loop
scan_loop-panics rules [] line after h = rw (scan_loop, h) refl
scan_loop-panics rules (l ∷ before) line after h = elim (read_line l) as (λ k. next k ≡ none) [
  | skipped ↦ scan_loop-panics rules before line after h
  | added rule ↦ scan_loop-panics (rules ++ (rule ∷ [])) before line after h
  | panicked ↦ refl
]
  where
    next : Line → Option (List Rule)
    next skipped = scan_loop rules (before ++ (line ∷ after))
    next (added rule) = scan_loop (rules ++ (rule ∷ [])) (before ++ (line ∷ after))
    next panicked = none

-- A file with a line that is not empty and has white space alone makes the reading of the rules
-- panic, whatever the other lines are.
pub read_rules-blank :
    (before : List String) (line : String) (after : List String) (failed : Bool)
    → (line == "") ≡ false
    → trim_space line ≡ ""
    → read_rules (before ++ (line ∷ after)) failed ≡ none
unfolding read_rules
read_rules-blank before line after failed given blank =
    rw
      (
        read_rules,
        scan_loop-panics default_exclusions before line after (read_line-blank line given blank),
      )
      refl
