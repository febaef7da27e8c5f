-- ===== src/Api/Meta/Laws.antt =====
-- What follows from the documented behaviour of the functions on conditions.
use etok.Base.{
  ℕ, ◌≡◌, refl, ap, inl, inr, String, Bool, true, false, Option, none, some, List, [], ◌∷◌, arith,
  eq_iff, ◌==◌, ==_refl, ==_cases, if◌then◌else◌,
}
use etok.Api.Meta.{
  Condition, ConditionStatus, ConditionApi, IsDocumented, stamp, renew, has_status, is_true,
  is_false,
}

-- The condition as it is stored, given the one of its type that stood there before.
abbrev pub stored : ℕ → Option Condition → Condition → Condition
stored now none c = stamp now c
stored now (some old) c = renew now old c

-- The reason and the status of a stored condition are the new ones.
pub stored-reason :
    (now : ℕ) (o : Option Condition) (c : Condition) → (stored now o c).reason ≡ c.reason
stored-reason now none c = refl
stored-reason now (some d) c = refl

pub stored-status :
    (now : ℕ) (o : Option Condition) (c : Condition) → (stored now o c).status ≡ c.status
stored-status now none c = refl
stored-status now (some d) c = refl

has_status-stored :
    (now : ℕ) (c : Condition) (o old : Option Condition) (p : ConditionStatus → Bool) (b : Bool)
    → has_status (if b then some (stored now o c) else old) p
      ≡ (if b then p c.status else has_status old p)
has_status-stored now c o old p true = ap p (stored-status now o c)
has_status-stored now c o old p false = refl

module _ (m : ConditionApi) (doc : IsDocumented m) where
  pub find-set :
      (now : ℕ) (cs : List Condition) (c : Condition) (t : String)
      → m.find_status_condition (m.set_status_condition now cs c) t ≡ (
          if c.type == t
          then some (stored now (m.find_status_condition cs c.type) c)
          else m.find_status_condition cs t)
  find-set now [] c t = rw (doc.set-nil now c, doc.find-cons, doc.find-nil, doc.find-nil)
  find-set now (d ∷ cs) c t = elim (==_cases d.type c.type) [
    | inl (same, e) ↦
        rw
          (
            doc.set-cons now d cs c,
            same,
            doc.find-cons (renew now d c) cs t,
            doc.find-cons d cs t,
            doc.find-cons d cs c.type,
            same,
          )
          (ground (arith, eq_iff d.type t, eq_iff c.type t))
    | inr (differ, n) ↦
        rw
          (
            doc.set-cons now d cs c,
            differ,
            doc.find-cons d (m.set_status_condition now cs c) t,
            doc.find-cons d cs t,
            doc.find-cons d cs c.type,
            differ,
            find-set now cs c t,
          )
          (ground (arith, eq_iff d.type t, eq_iff c.type t))
  ]

  -- A condition just set is found under its type.
  pub find-set_self :
      (now : ℕ) (cs : List Condition) (c : Condition)
      → m.find_status_condition (m.set_status_condition now cs c) c.type
        ≡ some (stored now (m.find_status_condition cs c.type) c)
  find-set_self now cs c = rw (find-set now cs c c.type, ==_refl c.type)

  pub is_true-set :
      (now : ℕ) (cs : List Condition) (c : Condition) (t : String)
      → m.is_status_condition_true (m.set_status_condition now cs c) t
        ≡ (if c.type == t then is_true c.status else m.is_status_condition_true cs t)
  is_true-set now cs c t =
      rw
        (
          doc.is_true-find (m.set_status_condition now cs c) t,
          doc.is_true-find cs t,
          find-set now cs c t,
        )
        (has_status-stored now c (m.find_status_condition cs c.type) _ is_true (c.type == t))

  pub is_false-set :
      (now : ℕ) (cs : List Condition) (c : Condition) (t : String)
      → m.is_status_condition_false (m.set_status_condition now cs c) t
        ≡ (if c.type == t then is_false c.status else m.is_status_condition_false cs t)
  is_false-set now cs c t =
      rw
        (
          doc.is_false-find (m.set_status_condition now cs c) t,
          doc.is_false-find cs t,
          find-set now cs c t,
        )
        (has_status-stored now c (m.find_status_condition cs c.type) _ is_false (c.type == t))
