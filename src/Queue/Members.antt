-- ===== src/Queue/Members.antt =====
-- The second loop keeps the members of the new queue, each once.
use etok.Base.{
  ◌≡◌, refl, ◌∙◌, inl, inr, String, List, [], ◌∷◌, arith, eq_iff, ==_refl, ==_cases, Bool-cases,
  contains, Distinct,
}
use etok.Slice.{delete_string}
use etok.Queue.{move_to_front, reorder}
use etok.Queue.Order.{move_to_front_lem, contains-delete_string}

delete_string-Distinct :
    (name : String) (q : List String) → Distinct q → Distinct (delete_string q name)
unfolding delete_string
delete_string-Distinct name [] d = tt
delete_string-Distinct name (x ∷ q) (fresh, d) = elim (==_cases x name) [
  | inl (same, e) ↦ rw same d
  | inr (differ, n) ↦ rw differ (
    ground (arith, contains-delete_string q name x d, eq_iff name x),
    delete_string-Distinct name q d,
  )
]

move_to_front-Distinct :
    (name : String) (q : List String) → Distinct q → Distinct (move_to_front name q)
move_to_front-Distinct name q d =
    rw (move_to_front_lem name q) (elim (Bool-cases (contains q name)) [
      | inl found ↦ rw found (
        ground (arith, contains-delete_string q name name d, ==_refl name),
        delete_string-Distinct name q d,
      )
      | inr missing ↦ rw missing d
    ])

pub reorder-Distinct : (curr_q q : List String) → Distinct q → Distinct (reorder curr_q q)
unfolding reorder
reorder-Distinct [] q d = d
reorder-Distinct (name ∷ curr_q) q d = move_to_front-Distinct name _ (reorder-Distinct curr_q q d)

contains-move_to_front :
    (x : String) (q : List String) (name : String)
    → Distinct q
    → contains (move_to_front x q) name ≡ contains q name
contains-move_to_front x q name d =
    rw (move_to_front_lem x q) (ground (arith, eq_iff x name, contains-delete_string q x name d))

pub contains-reorder :
    (curr_q q : List String) (name : String)
    → Distinct q
    → contains (reorder curr_q q) name ≡ contains q name
unfolding reorder
contains-reorder [] q name d = refl
contains-reorder (x ∷ curr_q) q name d =
    contains-move_to_front x _ name (reorder-Distinct curr_q q d) ∙ contains-reorder curr_q q name d
