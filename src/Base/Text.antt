-- ===== src/Base/Text.antt =====
-- The functions of Go's strings package that the program uses, at one-character separators.
use Prim.Native.Nat.{ℕ}
use Prim.Native.Char.{Char, code}
use Prim.Native.String.{String, ◌++◌}
use mathlib.Core.Path.{◌≡◌, refl, ap, sym, ◌∙◌}
use mathlib.Core.Logic.{◌≢◌, inl, inr}
use mathlib.Core.Bool.{Bool, true, false}
use mathlib.Core.List.{List, [], ◌∷◌}
use native.Mathlib.Omega.{arith}
use text.Mathlib.TextLemmas.{nil-append, cons-append}
use text.Mathlib.Text.{starts_with}
use text.Mathlib.TextEquality.{Char-path}
use etok.Base.Tests.{if◌then◌else◌, ◌==◌, nat_eq, Bool-cases}

abbrev cons_word : Char → List String → List String
cons_word x [] = (String.◌∷◌ x String.[]) ∷ []
cons_word x (w ∷ ws) = (String.◌∷◌ x w) ∷ ws

-- strings.Split at a one-character separator, given by its code.
unfoldable pub split : ℕ → String → List String
split c String.[] = "" ∷ []
split c (String.◌∷◌ x s) =
    let rest = split c s in if nat_eq (code x) c then "" ∷ rest else cons_word x rest

-- strings.Join
unfoldable pub join : List String → String → String
join [] sep = ""
join (x ∷ []) sep = x
join (x ∷ y ∷ r) sep = x ++ (sep ++ join (y ∷ r) sep)

-- strings.Contains at a one-character text.
unfoldable pub has_char : ℕ → String → Bool
has_char c String.[] = false
has_char c (String.◌∷◌ x s) = let rest = has_char c s in if nat_eq (code x) c then true else rest

-- A text without the separator is one part.
pub split_plain : (c : ℕ) (s : String) → has_char c s ≡ false → split c s ≡ s ∷ []
unfolding split has_char
split_plain c String.[] h = refl
split_plain c (String.◌∷◌ x s) h = ground (arith, split_plain c s)

-- What stands before the first separator is the first part.
pub split-append :
    (c : ℕ) (x : Char) (s t : String)
    → code x ≡ c
    → has_char c s ≡ false
    → split c (s ++ String.◌∷◌ x t) ≡ s ∷ split c t
unfolding split has_char
split-append c x String.[] t e h = rw nil-append (ground arith)
split-append c x (String.◌∷◌ y s) t e h = rw cons-append (ground (arith, split-append c x s t e))

cons_word-ne-nil : (x : Char) (ws : List String) → cons_word x ws ≢ []
cons_word-ne-nil x [] h = cc
cons_word-ne-nil x (w ∷ ws) h = cc

split-ne-nil : (c : ℕ) (s : String) → split c s ≢ []
unfolding split
split-ne-nil c String.[] = λ h. cc
split-ne-nil c (String.◌∷◌ x s) = elim (Bool-cases (nat_eq (code x) c)) [
  | inl same ↦ rw same (λ h. cc)
  | inr other ↦ rw other (cons_word-ne-nil x (split c s))
]

join-cons_word :
    (x : Char) (ws : List String) (sep : String)
    → join (cons_word x ws) sep ≡ String.◌∷◌ x (join ws sep)
unfolding join
join-cons_word x [] sep = refl
join-cons_word x (w ∷ []) sep = refl
join-cons_word x (w ∷ v ∷ ws) sep = cons-append x w _

join-empty_word :
    (d : Char) (s : String)
    → join ("" ∷ split (code d) s) (String.◌∷◌ d String.[])
      ≡ String.◌∷◌ d (join (split (code d) s) (String.◌∷◌ d String.[]))
unfolding join
join-empty_word d s = go (split (code d) s) (split-ne-nil (code d) s)
  where
    go :
        (ws : List String)
        → ws ≢ []
        → join ("" ∷ ws) (String.◌∷◌ d String.[]) ≡ String.◌∷◌ d (join ws (String.◌∷◌ d String.[]))
    go [] h = absurd (h refl)
    go (w ∷ ws) h = nil-append _ ∙ (cons-append d String.[] _ ∙ ap (String.◌∷◌ d) (nil-append _))

-- Joining the parts with the separator gives the text back.
pub join-split : (d : Char) (s : String) → join (split (code d) s) (String.◌∷◌ d String.[]) ≡ s
unfolding split
join-split d String.[] = unfold join in refl
join-split d (String.◌∷◌ x s) = elim (Bool-cases (nat_eq (code x) (code d))) [
  | inl same ↦ rw same (
      join-empty_word d s
      ∙ (ap (String.◌∷◌ d) (join-split d s)
          ∙ ap (λ e. String.◌∷◌ e s) (sym (Char-path x d (ground arith)))))
  | inr other ↦
      rw other (join-cons_word x (split (code d) s) _ ∙ ap (String.◌∷◌ x) (join-split d s))
]

pub sep-append : (d : Char) (t : String) → String.◌∷◌ d String.[] ++ t ≡ String.◌∷◌ d t
sep-append d t = cons-append d String.[] t ∙ ap (String.◌∷◌ d) (nil-append t)

-- The separator written between two texts.
pub split-sep :
    (d : Char) (s t : String)
    → has_char (code d) s ≡ false
    → split (code d) (s ++ (String.◌∷◌ d String.[] ++ t)) ≡ s ∷ split (code d) t
split-sep d s t h = rw (sep-append d t) (split-append (code d) d s t refl h)

-- strings.TrimPrefix
unfoldable pub trim_prefix : String → String → String
trim_prefix s String.[] = s
trim_prefix String.[] (String.◌∷◌ d p) = ""
trim_prefix (String.◌∷◌ c s) (String.◌∷◌ d p) = trim_prefix s p

-- strings.Replace(s, old, new, 1)
unfoldable pub replace_first : String → String → String → String
unfolding trim_prefix
replace_first String.[] old new = if old == "" then new else ""
replace_first (String.◌∷◌ c s) old new =
    let rest = replace_first s old new in
    if starts_with (String.◌∷◌ c s) old
    then new ++ trim_prefix (String.◌∷◌ c s) old
    else String.◌∷◌ c rest

-- strings.Contains
unfoldable pub contains_text : String → String → Bool
contains_text String.[] part = part == ""
contains_text (String.◌∷◌ c s) part =
    let rest = contains_text s part in if starts_with (String.◌∷◌ c s) part then true else rest
