-- ===== src/Base/Dict.antt =====
-- Go's map[string]V as an association list: a read takes the first entry of the key, a write
-- replaces it or adds one at the end, and `delete` removes every entry of the key.
use Prim.Native.String.{String}
use mathlib.Core.Path.{◌≡◌}
use mathlib.Core.Option.{Option, none, some}
use mathlib.Core.List.{List, [], ◌∷◌}
use native.Mathlib.Omega.{arith}
use text.Mathlib.TextEquality.{eq_iff}
use etok.Base.Tests.{if◌then◌else◌, ◌==◌}

abbrev pub Dict : Type 0 → Type 0
Dict V = List (String × V)

module _ {V : Type 0} where
  unfoldable pub lookup : String → Dict V → Option V
  lookup key [] = none
  lookup key ((name, value) ∷ entries) =
      let rest = lookup key entries in if name == key then some value else rest

  unfoldable pub erase : String → Dict V → Dict V
  erase key [] = []
  erase key ((name, value) ∷ entries) =
      let rest = erase key entries in if name == key then rest else (name, value) ∷ rest

  unfoldable pub insert : String → V → Dict V → Dict V
  insert key new [] = (key, new) ∷ []
  insert key new ((name, value) ∷ entries) =
      let rest = insert key new entries in
      if name == key then (key, new) ∷ entries else (name, value) ∷ rest

  pub lookup-erase :
      (erased key : String) (entries : Dict V)
      → lookup key (erase erased entries) ≡ (if erased == key then none else lookup key entries)
  unfolding erase lookup
  lookup-erase erased key [] = ground arith
  lookup-erase erased key ((name, value) ∷ entries) =
      let rest = lookup-erase erased key entries in
      ground (arith, rest, eq_iff erased key, eq_iff name erased, eq_iff name key)

  pub lookup-insert :
      (written key : String) (new : V) (entries : Dict V)
      → lookup key (insert written new entries)
        ≡ (if written == key then some new else lookup key entries)
  unfolding insert lookup
  lookup-insert written key new [] = ground arith
  lookup-insert written key new ((name, value) ∷ entries) =
      let rest = lookup-insert written key new entries in
      ground (arith, rest, eq_iff written key, eq_iff name written, eq_iff name key)
