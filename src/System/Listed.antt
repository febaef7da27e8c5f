-- ===== src/System/Listed.antt =====
-- Lists of runs by index, when one is replaced or removed, and runs told apart by name.
use etok.Base.{
  ℕ, zero, suc, ◌≡◌, ◌≢◌, refl, ap, ◌⊎◌, inl, inr, String, true, false, some, List, [], ◌∷◌, arith,
  ==_refl, contains, Distinct, get_elem?, set_elem, remove_elem,
}
use etok.Api.Run.{Run}
use etok.Queue.Laws.{names}

pub contains-names :
    (runs : List Run) (i : ℕ) (run : Run)
    → get_elem? runs i ≡ some run
    → contains (names runs) run.name ≡ true
contains-names [] i run at = cc
contains-names (r ∷ runs) zero run at = ground (arith, ==_refl run.name)
contains-names (r ∷ runs) (suc i) run at = ground (arith, contains-names runs i run at)

-- Unique names tell runs apart.
pub names-injective :
    (runs : List Run) (i j : ℕ) (a b : Run)
    → Distinct (names runs)
    → get_elem? runs i ≡ some a
    → get_elem? runs j ≡ some b
    → a.name ≡ b.name
    → (i ≡ j) × (a ≡ b)
names-injective [] i j a b d at at' same = cc
names-injective (r ∷ runs) zero zero a b d at at' same = ground arith
names-injective (r ∷ runs) zero (suc j) a b d at at' same =
    ground (arith, contains-names runs j b at')
names-injective (r ∷ runs) (suc i) zero a b d at at' same =
    ground (arith, contains-names runs i a at)
names-injective (r ∷ runs) (suc i) (suc j) a b d at at' same =
    let (p, q) = names-injective runs i j a b d.1 at at' same in (ap suc p, q)

pub names-set_elem :
    (runs : List Run) (i : ℕ) (old new : Run)
    → get_elem? runs i ≡ some old
    → new.name ≡ old.name
    → names (set_elem i new runs) ≡ names runs
names-set_elem [] i old new at same = refl
names-set_elem (r ∷ runs) zero old new at same = ground arith
names-set_elem (r ∷ runs) (suc i) old new at same =
    ap (λ rest. r.name ∷ rest) (names-set_elem runs i old new at same)

-- What stands in a list after a replacement is the new element at the index, or an old one
-- elsewhere.
pub get_elem?-set_elem :
    (runs : List Run) (i j : ℕ) (new run : Run)
    → get_elem? (set_elem i new runs) j ≡ some run
    → ((i ≡ j) × (run ≡ new)) ⊎ ((i ≢ j) × (get_elem? runs j ≡ some run))
get_elem?-set_elem [] i j new run at = cc
get_elem?-set_elem (r ∷ runs) zero zero new run at = ground arith
get_elem?-set_elem (r ∷ runs) zero (suc j) new run at = inr (λ e. omega arith, at)
get_elem?-set_elem (r ∷ runs) (suc i) zero new run at = inr (λ e. omega arith, at)
get_elem?-set_elem (r ∷ runs) (suc i) (suc j) new run at =
    elim (get_elem?-set_elem runs i j new run at) [
      | inl here ↦ inl (ap suc here.0, here.1)
      | inr there ↦ inr (λ e. there.0 (omega arith), there.1)
    ]

pub get_elem?-remove_elem :
    (runs : List Run) (i j : ℕ) (run : Run)
    → get_elem? (remove_elem i runs) j ≡ some run
    → (n : ℕ) × (get_elem? runs n ≡ some run)
get_elem?-remove_elem [] i j run at = cc
get_elem?-remove_elem (r ∷ runs) zero j run at = (suc j, at)
get_elem?-remove_elem (r ∷ runs) (suc i) zero run at = (0, at)
get_elem?-remove_elem (r ∷ runs) (suc i) (suc j) run at =
    let (n, at') = get_elem?-remove_elem runs i j run at in (suc n, at')

contains-remove_elem :
    (runs : List Run) (i : ℕ) (name : String)
    → contains (names runs) name ≡ false
    → contains (names (remove_elem i runs)) name ≡ false
contains-remove_elem [] i name h = refl
contains-remove_elem (r ∷ runs) zero name h = ground arith
contains-remove_elem (r ∷ runs) (suc i) name h = ground (arith, contains-remove_elem runs i name)

pub remove_elem-Distinct :
    (runs : List Run) (i : ℕ) → Distinct (names runs) → Distinct (names (remove_elem i runs))
remove_elem-Distinct [] i d = tt
remove_elem-Distinct (r ∷ runs) zero d = d.1
remove_elem-Distinct (r ∷ runs) (suc i) d =
    (contains-remove_elem runs i r.name d.0, remove_elem-Distinct runs i d.1)
