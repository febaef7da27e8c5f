-- ===== src/Slice/Laws.antt =====
-- pkg/util/slice/slice.go: the membership test and the comparison.
use etok.Base.{◌≡◌, refl, ◌↔◌, String, true, List, [], ◌∷◌, arith, eq_iff, contains}
use etok.Slice.{contains_string, identical_strings}

pub contains_string-contains :
    (slice : List String) (str : String) → contains_string slice str ≡ contains slice str
unfolding contains_string
contains_string-contains [] str = refl
contains_string-contains (item ∷ slice) str = ground (arith, contains_string-contains slice str)

-- `IdenticalStrings` decides equality.
pub identical_strings_iff : (a b : List String) → (identical_strings a b ≡ true) ↔ (a ≡ b)
unfolding identical_strings
identical_strings_iff [] [] = (λ h. refl, λ h. refl)
identical_strings_iff [] (y ∷ b) = (λ h. cc, λ h. cc)
identical_strings_iff (x ∷ a) [] = (λ h. cc, λ h. cc)
identical_strings_iff (x ∷ a) (y ∷ b) = ground (arith, eq_iff x y, identical_strings_iff a b)
