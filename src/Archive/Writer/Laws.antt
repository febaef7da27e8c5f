-- ===== src/Archive/Writer/Laws.antt =====
-- The limit of a writer holds over all writes.
use etok.Base.{
  ◌⊎◌, inl, inr, ℕ, ◌+◌, ◌≤◌, ◌<◌, ◌≢◌, ◌≡◌, refl, sym, subst, ap, ◌∙◌, ◌<>◌, List, [], ◌∷◌, ◌++◌,
  arith, length, length-append,
}
use etok.Base.FilePath.{itoa}
use etok.Kube.{Result, ok, err}
use etok.Archive.Writer.{MaxWriter, new_max_writer, write, next_write, write_all}

abbrev pub joined : List (List ℕ) → List ℕ
joined [] = []
joined (p ∷ ps) = p ++ joined ps

abbrev pub size_error : ℕ → Result ℕ
size_error max = err ("max config size exceeded (" <> (itoa max <> " bytes)"))

-- What is written is what has been counted, and is no more than the limit.
abbrev IsWithin : MaxWriter → Type 0
IsWithin m = (m.tally ≡ length m.written) × (m.tally ≤ m.max) × (m.max ≢ 0)

compare_cases : (a b : ℕ) → (a < b) ⊎ (b ≤ a)
compare_cases a b = omega arith

append_assoc : (xs ys zs : List ℕ) → (xs ++ ys) ++ zs ≡ xs ++ (ys ++ zs)
append_assoc [] ys zs = refl
append_assoc (x ∷ xs) ys zs = rw (append_assoc xs ys zs)

append_nil : (xs : List ℕ) → xs ++ [] ≡ xs
append_nil [] = refl
append_nil (x ∷ xs) = rw (append_nil xs)

write-fits :
    (p : List ℕ) (m : MaxWriter)
    → IsWithin m
    → length m.written + length p ≤ m.max
    → write p m ≡ (ok (length p), record m { tally = m.tally + length p; written = m.written ++ p })
unfolding write
write-fits p m w fits = ground arith

write-exceeds :
    (p : List ℕ) (m : MaxWriter)
    → IsWithin m
    → m.max < length m.written + length p
    → write p m ≡ (size_error m.max, record m { tally = m.tally + length p })
unfolding write
write-exceeds p m w more = ground arith

write_all-fits :
    (ps : List (List ℕ)) (m : MaxWriter) (n : ℕ) (ys : List ℕ)
    → IsWithin m
    → n ≡ m.tally + length (joined ps)
    → ys ≡ m.written ++ joined ps
    → n ≤ m.max
    → write_all ps m ≡ (ok n, record m { tally = n; written = ys })
unfolding write_all
write_all-fits [] m n ys w size whole fits =
    let same : n ≡ m.tally = omega arith in
    let all : ys ≡ m.written = whole ∙ append_nil m.written in rw (same, all) refl
write_all-fits (p ∷ ps) m n ys w size whole fits =
    let split = length-append p (joined ps) in
    let grown = length-append m.written p in
    let m' : MaxWriter = record m { tally = m.tally + length p; written = m.written ++ p } in
    ap (next_write (write_all ps)) (write-fits p m w (omega arith))
    ∙ write_all-fits ps m' n ys (omega arith, omega arith, w.2) (omega arith)
        (whole ∙ sym (append_assoc m.written p (joined ps))) fits

-- The error of a sequence of writes, with no more written than the limit.
abbrev pub IsExceeded : ℕ → Result ℕ × MaxWriter → Type 0
IsExceeded max (r, m) = (r ≡ size_error max) × (length m.written ≤ max)

write_all-IsExceeded :
    (ps : List (List ℕ)) (m : MaxWriter)
    → IsWithin m
    → m.max < m.tally + length (joined ps)
    → IsExceeded m.max (write_all ps m)
unfolding write_all
write_all-IsExceeded [] m w more = absurd (omega arith)
write_all-IsExceeded (p ∷ ps) m w more = elim (compare_cases m.max (m.tally + length p)) [
  | inl over ↦
      subst (λ x. IsExceeded m.max (next_write (write_all ps) x))
        (sym (write-exceeds p m w (omega arith))) (refl, omega arith)
  | inr within ↦
      let split = length-append p (joined ps) in
      let grown = length-append m.written p in
      let m' : MaxWriter = record m { tally = m.tally + length p; written = m.written ++ p } in
      subst (λ x. IsExceeded m.max (next_write (write_all ps) x))
        (sym (write-fits p m w (omega arith)))
        (write_all-IsExceeded ps m' (omega arith, omega arith, w.2) (omega arith))
]

-- For a limit that is not 0 and any sequence of writes: if all fit in the limit, they are all
-- written and counted; if not, the result is the error of the limit, and no more than the limit
-- has been written.
pub write_all-bounds :
    (ps : List (List ℕ)) (max : ℕ)
    → max ≢ 0
    → (length (joined ps) ≤ max
        → write_all ps (new_max_writer max) ≡ (
          ok (length (joined ps)),
          record { tally = length (joined ps); max = max; written = joined ps },
        ))
      × (max < length (joined ps) → IsExceeded max (write_all ps (new_max_writer max)))
unfolding new_max_writer
write_all-bounds ps max positive =
    let w : MaxWriter = record { tally = 0; max = max; written = [] } in
    (
      λ fits.
          write_all-fits ps w (length (joined ps)) (joined ps) (refl, omega arith, positive)
            (omega arith) refl fits,
      λ more. write_all-IsExceeded ps w (refl, omega arith, positive) (omega arith),
    )
