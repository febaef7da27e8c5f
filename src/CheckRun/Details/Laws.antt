-- ===== src/CheckRun/Details/Laws.antt =====
-- The size of the details of a check run.
use etok.Base.{
  ℕ, zero, suc, ◌+◌, ◌-◌, ◌≤◌, ◌<◌, ◌≡◌, refl, false, List, [], ◌∷◌, ◌++◌, arith, leb, ltb, length,
  drop, length-append, Bool-cases, inl, inr,
}
use etok.Api.Meta.{ConditionApi}
use etok.CheckRun.Update.{CheckRunUpdate, Matchers}
use etok.CheckRun.Details.{
  Details, absent, crashed, details_text, skip_line, trim_left, trim_right, unless_newline,
  exceeded, start_of, body, whole_lines, cut, shorten, fit, details, text_start, text_end,
}

length-skip_line : (out : List ℕ) → length (skip_line out) ≤ length out
unfolding skip_line
length-skip_line [] = omega arith
length-skip_line (b ∷ out) = ground (arith, length-skip_line out)

length-trim_left : (out : List ℕ) → length (trim_left out) ≤ length out
unfolding trim_left
length-trim_left [] = omega arith
length-trim_left (b ∷ out) = ground (arith, length-trim_left out)

length-unless_newline : (b : ℕ) (out : List ℕ) → length (unless_newline b out) ≤ length out + 1
length-unless_newline b [] = ground arith
length-unless_newline b (c ∷ out) = ground arith

length-trim_right : (out : List ℕ) → length (trim_right out) ≤ length out
unfolding trim_right
length-trim_right [] = omega arith
length-trim_right (b ∷ out) =
    omega (arith, length-unless_newline b (trim_right out), length-trim_right out)

length-drop : (n : ℕ) (out : List ℕ) → length (drop n out) ≡ length out - n
length-drop zero out = omega arith
length-drop (suc n) [] = omega arith
length-drop (suc n) (b ∷ out) = omega (arith, length-drop n out)

length-whole_lines : (rest : List ℕ) → length (whole_lines rest) ≤ length rest
length-whole_lines rest = ground (arith, length-skip_line rest)

length-body :
    (message lines : List ℕ) → length (body message lines) ≤ length message + length lines + 13
length-body message lines = omega (
  arith,
  length-append (text_start ++ message ++ trim_right (trim_left lines)) text_end,
  length-append (text_start ++ message) (trim_right (trim_left lines)),
  length-append text_start message,
  length-trim_right (trim_left lines),
  length-trim_left lines,
)

abbrev text_of : Details → List ℕ
text_of absent = []
text_of crashed = []
text_of (details_text d) = d

-- bytes.TrimSpace only takes away.
abbrev pub IsTrim : Matchers → Type 0
IsTrim x = (out : List ℕ) → length (x.trim_space out) ≤ length out

length-cut :
    (max start : ℕ) (message out : List ℕ) {d : List ℕ}
    → length out + 13 ≡ start + max
    → cut message (start + length message) out ≡ details_text d
    → length d ≤ max
unfolding cut
length-cut max start message out {d} h e =
    elim (Bool-cases (ltb (length out) (start + length message))) [
      | inl over ↦ absurd (ground arith)
      | inr within ↦
          let rest = drop (start + length message) out in
          let same : d ≡ body message (whole_lines rest) = ground arith in
          let bound = length-body message (whole_lines rest) in
          let b1 = length-whole_lines rest in
          let b2 = length-drop (start + length message) out in
          let fits : start + length message ≤ length out = ground arith in
          rw same (omega (arith, bound, b1, b2, fits, h))
    ]

length-fit :
    (x : Matchers) (max : ℕ) (out : List ℕ) {d : List ℕ}
    → IsTrim x
    → fit x max out ≡ details_text d
    → length d ≤ max
unfolding fit shorten
length-fit x max out {d} trims e = elim (Bool-cases (leb (8 + length out + 5) max)) [
  | inl within ↦
      let same : d ≡ text_start ++ x.trim_space out ++ text_end = ground arith in
      let small : 8 + length out + 5 ≤ max = ground arith in
      rw same (
        omega (
          arith,
          length-append (text_start ++ x.trim_space out) text_end,
          length-append text_start (x.trim_space out),
          trims out,
          small,
        ))
  | inr over ↦
      let large : max < 8 + length out + 5 = ground arith in
      let start = start_of max out in
      let e' : cut (exceeded max start) (start + length (exceeded max start)) out ≡ details_text d =
        ground arith in
      length-cut max start (exceeded max start) out (omega (arith, large)) e'
]

-- The details of a check run are never longer than the field size, if trimming only takes away.
pub length-details :
    (x : Matchers) (m : ConditionApi) (u : CheckRunUpdate) {d : List ℕ}
    → IsTrim x
    → details x m u ≡ details_text d
    → length d ≤ u.max_field_size
unfolding details
length-details x m u {d} trims e = ground (
  arith,
  length-fit x u.max_field_size u.logs {d = d} trims,
  length-fit x u.max_field_size (x.remove_refreshing u.logs) {d = d} trims,
)

-- The logs are cut without a crash, and there are details, if the field has room for the text
-- block and the message.
pub fit-total :
    (x : Matchers) (max : ℕ) (out : List ℕ)
    → length (exceeded max (start_of max out)) + 13 ≤ max
    → (d : List ℕ) × (fit x max out ≡ details_text d)
unfolding fit shorten cut
fit-total x max out h = elim (Bool-cases (leb (8 + length out + 5) max)) [
  | inl within ↦ (text_start ++ x.trim_space out ++ text_end, rw within refl)
  | inr over ↦
      let start = start_of max out + length (exceeded max (start_of max out)) in
      let ok' : ltb (length out) start ≡ false = ground arith in
      (body (exceeded max (start_of max out)) (whole_lines (drop start out)), rw (over, ok') refl)
]
