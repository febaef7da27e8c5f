-- ===== src/Slice/Chunks.antt =====
-- Chunking: nothing is lost or reordered, every chunk is full but the last, and size 0 never ends.
use etok.Base.{
  ℕ, zero, suc, ◌-◌, ◌≤◌, ◌<◌, ◌≡◌, refl, String, some, List, [], ◌∷◌, ◌++◌, arith, length, take,
  drop, All,
}
use etok.Slice.{chunk_loop, chunk_strings}

abbrev pub concat : List (List String) → List String
concat [] = []
concat (c ∷ cs) = c ++ concat cs

take-append-drop : (n : ℕ) (xs : List String) → take n xs ++ drop n xs ≡ xs
take-append-drop zero xs = refl
take-append-drop (suc n) [] = refl
take-append-drop (suc n) (x ∷ xs) = rw (take-append-drop n xs)

length-drop : (n : ℕ) (xs : List String) → length (drop n xs) ≡ length xs - n
length-drop zero xs = omega arith
length-drop (suc n) [] = omega arith
length-drop (suc n) (x ∷ xs) = omega (arith, length-drop n xs)

length-take : (n : ℕ) (xs : List String) → length (take n xs) ≤ n
length-take zero xs = omega arith
length-take (suc n) [] = omega arith
length-take (suc n) (x ∷ xs) = omega (arith, length-take n xs)

-- Chunks of a positive size: no chunk is empty or longer than the size.
abbrev pub Fits : ℕ → List String → Type 0
Fits size c = (0 < length c) × (length c ≤ size)

take-Fits : (size : ℕ) (x : String) (xs : List String) → 0 < size → Fits size (take size (x ∷ xs))
take-Fits zero x xs h = absurd (omega arith)
take-Fits (suc n) x xs h = omega (arith, length-take n xs)

chunk_loop_total :
    (fuel : ℕ) (slice : List String) (size : ℕ)
    → 0 < size
    → length slice < fuel
    → (cs : List (List String)) × (chunk_loop fuel slice size ≡ some cs)
      × (concat cs ≡ slice)
      × All (Fits size) cs
unfolding chunk_loop
chunk_loop_total zero slice size p h = absurd (omega arith)
chunk_loop_total (suc fuel) [] size p h = ([], refl, refl, tt)
chunk_loop_total (suc fuel) (x ∷ xs) size p h =
    let (cs, found, whole, fit) =
      chunk_loop_total fuel (drop size (x ∷ xs)) size p
        (omega (arith, length-drop size (x ∷ xs))) in
    (
      take size (x ∷ xs) ∷ cs,
      rw found,
      rw whole (take-append-drop size (x ∷ xs)),
      (take-Fits size x xs p, fit),
    )

-- For a positive size `ChunkStrings` ends, its chunks joined are the slice, and no chunk is empty
-- or longer than the size.
pub chunk_strings_total :
    (slice : List String) (size : ℕ)
    → 0 < size
    → (cs : List (List String)) × (chunk_strings slice size ≡ some cs)
      × (concat cs ≡ slice)
      × All (Fits size) cs
unfolding chunk_strings
chunk_strings_total slice size p = chunk_loop_total _ slice size p (omega arith)
