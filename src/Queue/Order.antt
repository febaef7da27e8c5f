-- ===== src/Queue/Order.antt =====
-- Where the second loop puts the names: those of the current queue first, in its order.
use etok.Base.{
  ℕ, zero, suc, ◌≡◌, refl, sym, ap, ◌∙◌, inl, inr, String, Bool, true, false, not, ◌&&◌, ◌||◌,
  Option, none, some, List, [], ◌∷◌, ◌++◌, arith, eq_iff, ◌==◌, ==_refl, ==_cases, Bool-cases,
  if◌then◌else◌, take, drop, filter, contains, Distinct,
}
use mathlib.Core.List.{append-nil}
use etok.Slice.{string_index, delete_string}
use etok.Queue.{move_at, move_to_front, reorder}

delete_string-absent :
    (q : List String) (name : String) → contains q name ≡ false → delete_string q name ≡ q
unfolding delete_string
delete_string-absent [] name h = refl
delete_string-absent (x ∷ q) name h = ground (arith, delete_string-absent q name)

pub contains-delete_string :
    (q : List String) (name other : String)
    → Distinct q
    → contains (delete_string q name) other ≡ (if name == other then false else contains q other)
unfolding delete_string
contains-delete_string [] name other d = ground arith
contains-delete_string (x ∷ q) name other d =
    ground
      (arith, eq_iff name other, eq_iff x name, eq_iff x other, contains-delete_string q name other)

delete_string-at :
    (q : List String) (name : String) (j : ℕ)
    → string_index q name ≡ some j
    → (take j q ++ drop (suc j) q ≡ delete_string q name) × (contains q name ≡ true)
unfolding string_index delete_string
delete_string-at [] name j h = cc
delete_string-at (x ∷ q) name zero h = ground arith
delete_string-at (x ∷ q) name (suc j) h = ground (arith, delete_string-at q name j)

string_index-absent :
    (q : List String) (name : String) → string_index q name ≡ none → contains q name ≡ false
unfolding string_index
string_index-absent [] name h = refl
string_index-absent (x ∷ q) name h = ground (arith, string_index-absent q name)

delete_string-first :
    (q : List String) (name : String)
    → string_index q name ≡ some 0
    → q ≡ name ∷ delete_string q name
unfolding string_index delete_string
delete_string-first [] name h = cc
delete_string-first (x ∷ q) name h = ground (arith, eq_iff x name)

move_at_lem :
    (o : Option ℕ) (name : String) (q : List String)
    → string_index q name ≡ o
    → move_at o name q ≡ (if contains q name then name ∷ delete_string q name else q)
unfolding move_at
move_at_lem none name q h = rw (string_index-absent q name h)
move_at_lem (some zero) name q h = rw (delete_string-at q name 0 h).1 (delete_string-first q name h)
move_at_lem (some (suc j)) name q h =
    let (kept, found) = delete_string-at q name (suc j) h in rw found (ap (λ r. name ∷ r) kept)

-- What `move_to_front` does, without indices.
pub move_to_front_lem :
    (name : String) (q : List String)
    → move_to_front name q ≡ (if contains q name then name ∷ delete_string q name else q)
unfolding move_to_front
move_to_front_lem name q = move_at_lem (string_index q name) name q refl

pub contains-filter :
    (p : String → Bool) (q : List String) (name : String)
    → contains (filter p q) name ≡ (p name && contains q name)
contains-filter p [] name = ground arith
contains-filter p (x ∷ q) name = elim (==_cases x name) [
  | inl (same, e) ↦ rw e (ground (arith, contains-filter p q name, ==_refl name))
  | inr (differ, n) ↦ ground (arith, contains-filter p q name)
]

pub contains-append :
    (q r : List String) (name : String)
    → contains (q ++ r) name ≡ (contains q name || contains r name)
contains-append [] r name = refl
contains-append (x ∷ q) r name = ground (arith, contains-append q r name)

delete_string-append :
    (q r : List String) (name : String)
    → contains q name ≡ false
    → delete_string (q ++ r) name ≡ q ++ delete_string r name
unfolding delete_string
delete_string-append [] r name h = refl
delete_string-append (x ∷ q) r name h = ground (arith, delete_string-append q r name)

-- The names of `q` that pass `p` and do not stand in `curr_q`.
abbrev pub others : List String → List String → List String
others curr_q q = filter (λ x. not (contains curr_q x)) q

others-absent :
    (name : String) (curr_q q : List String)
    → contains q name ≡ false
    → others (name ∷ curr_q) q ≡ others curr_q q
others-absent name curr_q [] h = refl
others-absent name curr_q (x ∷ q) h =
    ground (arith, others-absent name curr_q q, eq_iff name x, eq_iff x name)

filter-all : (q : List String) → others [] q ≡ q
filter-all [] = refl
filter-all (x ∷ q) = rw (filter-all q)

others-cons :
    (name : String) (curr_q q : List String)
    → Distinct q
    → delete_string (others curr_q q) name ≡ others (name ∷ curr_q) q
unfolding delete_string
others-cons name curr_q [] d = refl
others-cons name curr_q (x ∷ q) (fresh, d) = elim (==_cases name x) [
  | inl (same, e) ↦
      let absent : contains q name ≡ false = rw e fresh in
      rw same (
        ground (
          arith,
          eq_iff x name,
          others-absent name curr_q q absent,
          contains-filter (λ y. not (contains curr_q y)) q name,
          delete_string-absent (others curr_q q) name,
        ))
  | inr (differ, n) ↦ rw differ (ground (arith, eq_iff x name, others-cons name curr_q q d))
]

-- Names are unique in the current queue and in the new one: the loop puts the names of the
-- current queue that are still in the new queue first, in the order of the current queue, and the
-- others behind them, in the order in which they were found.
pub reorder_lem :
    (curr_q q : List String)
    → Distinct curr_q
    → Distinct q
    → reorder curr_q q ≡ filter (contains q) curr_q ++ others curr_q q
unfolding reorder
reorder_lem [] q d e = sym (filter-all q)
reorder_lem (name ∷ curr_q) q (fresh, d) e =
    rw (reorder_lem curr_q q d e, move_to_front_lem, contains-append)
      (elim (Bool-cases (contains q name)) [
        | inl found ↦
            let inside : contains (filter (contains q) curr_q) name ≡ false =
              ground (arith, contains-filter (contains q) curr_q name) in
            let behind : contains (others curr_q q) name ≡ true =
              ground (arith, contains-filter (λ y. not (contains curr_q y)) q name) in
            rw (inside, behind, found)
              (ap (λ r. name ∷ r)
                (delete_string-append _ _ name inside
                  ∙ ap (λ r. filter (contains q) curr_q ++ r) (others-cons name curr_q q e)))
        | inr missing ↦
            let inside : contains (filter (contains q) curr_q) name ≡ false =
              ground (arith, contains-filter (contains q) curr_q name) in
            let behind : contains (others curr_q q) name ≡ false =
              ground (arith, contains-filter (λ y. not (contains curr_q y)) q name) in
            rw (inside, behind, missing)
              (ap (λ r. filter (contains q) curr_q ++ r)
                (sym (others-absent name curr_q q missing)))
      ])

filter-all_of :
    (p : String → Bool) (q : List String)
    → ((x : String) → contains q x ≡ true → p x ≡ true)
    → filter p q ≡ q
filter-all_of p [] h = refl
filter-all_of p (x ∷ q) h = rw (h x (rw ==_refl), filter-all_of p q (λ y m. h y (ground arith)))

filter-none_of :
    (p : String → Bool) (q : List String)
    → ((x : String) → contains q x ≡ true → p x ≡ false)
    → filter p q ≡ []
filter-none_of p [] h = refl
filter-none_of p (x ∷ q) h = rw (h x (rw ==_refl)) (filter-none_of p q (λ y m. h y (ground arith)))

-- A current queue that holds exactly the names of the new one comes out as it went in.
pub reorder_self :
    (curr_q q : List String)
    → Distinct curr_q
    → Distinct q
    → ((name : String) → contains curr_q name ≡ contains q name)
    → reorder curr_q q ≡ curr_q
reorder_self curr_q q d e same =
    rw
      (
        reorder_lem curr_q q d e,
        filter-all_of (contains q) curr_q (λ x m. sym (same x) ∙ m),
        filter-none_of (λ x. not (contains curr_q x)) q (λ x m. rw (same x, m)),
      )
      (append-nil curr_q)
