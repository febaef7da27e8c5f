-- ===== src/Slice.antt =====
-- pkg/util/slice/slice.go: searching, deleting from and chunking slices of strings. The index -1
-- of `StringIndex` is `none`.
pub mod Laws
pub mod Chunks
use etok.Base.{
  ltb, ℕ, zero, suc, ◌-◌, String, Bool, true, false, Option, none, some, List, [], ◌∷◌, ◌++◌, ◌==◌,
  if◌then◌else◌, length, take, drop,
}

-- The loop of `IdenticalStrings`, which indexes `b` by the position in `a`.
identical_loop : List String → List String → Bool
identical_loop [] b = true
identical_loop (item ∷ a) [] = false
identical_loop (item ∷ a) (other ∷ b) =
    let rest = identical_loop a b in if item == other then rest else false

abbrev length_eq : List String → List String → Bool
length_eq [] [] = true
length_eq (x ∷ a) (y ∷ b) = length_eq a b
length_eq _ _ = false

unfoldable pub identical_strings : List String → List String → Bool
unfolding identical_loop
identical_strings a b = if length_eq a b then identical_loop a b else false

unfoldable pub contains_string : List String → String → Bool
contains_string [] str = false
contains_string (item ∷ slice) str =
    let rest = contains_string slice str in if item == str then true else rest

-- Only the first occurrence goes.
unfoldable pub delete_string : List String → String → List String
delete_string [] str = []
delete_string (item ∷ slice) str =
    let rest = delete_string slice str in if item == str then slice else item ∷ rest

abbrev shift : Option ℕ → Option ℕ
shift none = none
shift (some i) = some (suc i)

unfoldable pub string_index : List String → String → Option ℕ
string_index [] str = none
string_index (item ∷ slice) str =
    let rest = shift (string_index slice str) in if item == str then some 0 else rest

abbrev prepend_chunk : List String → Option (List (List String)) → Option (List (List String))
prepend_chunk c none = none
prepend_chunk c (some cs) = some (c ∷ cs)

-- The loop of `ChunkStrings` on fuel, over what is left of the slice; `none`: it still runs.
unfoldable pub chunk_loop : ℕ → List String → ℕ → Option (List (List String))
chunk_loop zero slice size = none
chunk_loop (suc fuel) [] size = some []
chunk_loop (suc fuel) (item ∷ slice) size =
    prepend_chunk (take size (item ∷ slice)) (chunk_loop fuel (drop size (item ∷ slice)) size)

-- A round for each item, and one to stop: enough for every size but 0, at which `i += size`
-- never moves.
unfoldable pub chunk_strings : List String → ℕ → Option (List (List String))
chunk_strings slice size = chunk_loop (suc (length slice)) slice size

-- The padding loop: `rounds` is what is left of `for i := 0; i < size; i++`.
unfoldable pub pad_loop : ℕ → ℕ → List String → List String
pad_loop zero size last = last
pad_loop (suc rounds) size last =
    pad_loop rounds size (if ltb (length last) size then last ++ ("" ∷ []) else last)

pad_last : ℕ → List (List String) → List (List String)
pad_last size [] = []
pad_last size (last ∷ []) = pad_loop size size last ∷ []
pad_last size (c ∷ d ∷ chunks) = c ∷ pad_last size (d ∷ chunks)

abbrev pad_chunks : ℕ → Option (List (List String)) → Option (List (List String))
pad_chunks size none = none
pad_chunks size (some chunks) = some (pad_last size chunks)

unfoldable pub equal_chunk_strings : List String → ℕ → Option (List (List String))
unfolding chunk_strings pad_last
equal_chunk_strings slice size = pad_chunks size (chunk_strings slice size)
