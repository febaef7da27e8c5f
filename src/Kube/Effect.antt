-- ===== src/Kube/Effect.antt =====
-- Calls that change a state and may fail: what was written before a failure stays written.
use etok.Base.{
  ap, String, ◌<>◌, Bool, true, false, Option, none, some, List, [], ◌∷◌, ◌≡◌, refl, if◌then◌else◌,
}
use etok.Kube
use etok.Kube.{Error, Get, Result, ok, err}

abbrev pub Effect : Type 0 → Type 0 → Type 0
Effect S A = S → Result A × S

abbrev pub Done : Type 0
Done = Unit {0}

module _ {A : Type 0} where
  abbrev got : Get A → Result (Option A)
  got (Kube.Get.found a) = ok (some a)
  got Kube.Get.not_found = ok none
  got (Kube.Get.failed e) = err e

  abbrev wanted : Get A → Result A
  wanted (Kube.Get.found a) = ok a
  wanted Kube.Get.not_found = err "not found"
  wanted (Kube.Get.failed e) = err e

  abbrev reworded : (Error → Error) → Result A → Result A
  reworded f (ok a) = ok a
  reworded f (err e) = err (f e)

abbrev failing : Option Error → Result Done
failing none = ok tt
failing (some e) = err e

module _ {S A : Type 0} where
  abbrev pub pure : A → Effect S A
  pure a s = (ok a, s)

  abbrev pub raise : Error → Effect S A
  raise e s = (err e, s)

  abbrev pub gets : (S → A) → Effect S A
  gets f s = (ok (f s), s)

  abbrev pub checked : (S → Result A) → Effect S A
  checked f s = (f s, s)

  abbrev pub lift : Result A → Effect S A
  lift r s = (r, s)

  -- A read whose not-found error is told apart.
  abbrev pub find : (S → Get A) → Effect S (Option A)
  find f s = (got (f s), s)

  -- A read that fails with any error.
  abbrev pub fetch : (S → Get A) → Effect S A
  fetch f s = (wanted (f s), s)

  -- `if err != nil { return f(err) }`
  abbrev pub on_error : (Error → Error) → Effect S A → Effect S A
  on_error f m s = let (r, s') = m s in (reworded f r, s')

  -- `fmt.Errorf(text + ": %w", err)`
  abbrev pub wrap : String → Effect S A → Effect S A
  wrap text m = on_error (λ e. text <> (": " <> e)) m

module _ {S : Type 0} where
  -- A call that answers an error or nil.
  abbrev pub call : (S → Option Error × S) → Effect S Done
  call f s = let (e, s') = f s in (failing e, s')

  abbrev pub fail_if : Bool → Error → Effect S Done
  fail_if c e s = (if c then err e else ok tt, s)

module _ {S A B : Type 0} where
  abbrev continue : Result A → (A → Effect S B) → Effect S B
  continue (ok a) f s = f a s
  continue (err e) f s = (err e, s)

  infixl 10 ◌>>=◌ ◌>>◌
  abbrev pub ◌>>=◌ : Effect S A → (A → Effect S B) → Effect S B
  ◌>>=◌ m f s = let (r, s') = m s in continue r f s'

  abbrev pub ◌>>◌ : Effect S A → Effect S B → Effect S B
  m >> n = m >>= λ _. n

  -- A block that ends well has had its first call end well.
  pub >>=-eq-ok :
      (m : Effect S A) (f : A → Effect S B) (s : S) {b : B} {t : S}
      → (m >>= f) s ≡ (ok b, t)
      → (a : A) × (u : S) × (m s ≡ (ok a, u)) × (f a u ≡ (ok b, t))
  >>=-eq-ok m f s {b} {t} h = go (m s) h
    where
      go :
          (x : Result A × S)
          → (let (r, s') = x in continue r f s') ≡ (ok b, t)
          → (a : A) × (u : S) × (x ≡ (ok a, u)) × (f a u ≡ (ok b, t))
      go (ok a, u) h = (a, u, refl, h)
      go (err e, u) h = cc

-- The loop over a list, in order, until a call fails.
module _ {S A : Type 0} where
  unfoldable pub each : (A → Effect S Done) → List A → Effect S Done
  each f [] = pure tt
  each f (x ∷ xs) = f x >> each f xs

module _ {S A B : Type 0} where
  -- The same where the first call leaves the state alone.
  pub lift-eq-ok :
      (r : Result A) (f : A → Effect S B) (s : S) {b : B} {t : S}
      → (lift r >>= f) s ≡ (ok b, t)
      → (a : A) × (r ≡ ok a) × (f a s ≡ (ok b, t))
  lift-eq-ok (ok a) f s h = (a, refl, h)
  lift-eq-ok (err e) f s h = cc

module _ {S B : Type 0} where
  pub fail_if-eq-ok :
      (c : Bool) (e : Error) (f : Done → Effect S B) (s : S) {b : B} {t : S}
      → (fail_if c e >>= f) s ≡ (ok b, t)
      → (c ≡ false) × (f tt s ≡ (ok b, t))
  fail_if-eq-ok true e f s h = cc
  fail_if-eq-ok false e f s h = (refl, h)

module _ {S : Type 0} where
  pub call-eq-ok :
      (x : Option Error × S) (s : S) {unit : Done} {t : S}
      → call (λ _. x) s ≡ (ok unit, t)
      → x ≡ (none, t)
  call-eq-ok (none, u) s h = ap (λ p. (none, p.1)) h
  call-eq-ok (some e, u) s h = cc
