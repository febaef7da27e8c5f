-- ===== src/Archive/Writer.antt =====
-- pkg/archive/max_writer.go: a writer that ends with an error past a number of bytes.
pub mod Laws
use etok.Base.{
  ℕ, ◌+◌, ◌≤◌, ◌≢◌, ◌≡◌, refl, String, ◌<>◌, Bool, true, false, not, ◌&&◌, List, [], ◌∷◌, ◌++◌,
  arith, length, length-append, ltb, nat_eq, if◌then◌else◌,
}
use etok.Base.FilePath.{itoa}
use etok.Kube.{Result, ok, err}

abbrev pub max_config_size : ℕ
max_config_size = 1048576

-- What is written is appended to the bytes of the writer behind it, which does not fail.
pub record MaxWriter : Type 0 where
  pub tally : ℕ
  pub max : ℕ
  pub written : List ℕ

unfoldable pub new_max_writer : ℕ → MaxWriter
new_max_writer max = record { tally = 0; max = max; written = [] }

unfoldable pub write : List ℕ → MaxWriter → Result ℕ × MaxWriter
write p m =
    let tally = m.tally + length p in
    if not (nat_eq m.max 0) && ltb m.max tally
    then (
      err ("max config size exceeded (" <> (itoa m.max <> " bytes)")),
      record m { tally = tally },
    )
    else (ok (length p), record m { tally = tally; written = m.written ++ p })

abbrev pub next_write :
    (MaxWriter → Result ℕ × MaxWriter) → Result ℕ × MaxWriter → Result ℕ × MaxWriter
next_write rest (ok n, m) = rest m
next_write rest (err e, m) = (err e, m)

-- A writer in front of it, which goes on until an error.
unfoldable pub write_all : List (List ℕ) → MaxWriter → Result ℕ × MaxWriter
unfolding write
write_all [] m = (ok m.tally, m)
write_all (p ∷ ps) m = next_write (write_all ps) (write p m)
