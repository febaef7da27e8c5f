-- ===== src/Base/Digits.antt =====
-- A number is read back from its digits, which have no dash among them.
use Prim.Native.Nat.{ℕ, zero, suc, ◌+◌, ◌-◌, ◌*◌, ◌/◌, ◌%◌, ◌<◌}
use Prim.Native.Char.{Char, code}
use Prim.Native.String.{String, ◌++◌}
use mathlib.Core.Path.{◌≡◌, refl, sym, ap, ◌∙◌}
use mathlib.Core.Logic.{inl, inr}
use mathlib.Core.Bool.{false}
use native.Mathlib.Omega.{arith}
use etok.Base.Tests.{ltb, nat_eq, Bool-cases}
use etok.Base.Text.{has_char, sep-append}
use etok.Base.FilePath.{digit, itoa_loop, itoa}

-- The number that the digits of a text continue.
number : ℕ → String → ℕ
number n String.[] = n
number n (String.◌∷◌ c s) = number (n * 10 + (code c - 48)) s

number-cons :
    (c : Char) (n : ℕ) (s : String)
    → number n (String.◌∷◌ c String.[] ++ s) ≡ number (n * 10 + (code c - 48)) s
unfolding number
number-cons c n s = rw (sep-append c s) refl

number-digit :
    (d : ℕ) → d < 10 → (n : ℕ) (s : String) → number n (digit d ++ s) ≡ number (n * 10 + d) s
number-digit d h n s = ground (
  arith,
  number-cons "0" n s,
  number-cons "1" n s,
  number-cons "2" n s,
  number-cons "3" n s,
  number-cons "4" n s,
  number-cons "5" n s,
  number-cons "6" n s,
  number-cons "7" n s,
  number-cons "8" n s,
  number-cons "9" n s,
)

number-itoa_loop :
    (fuel n : ℕ) (out : String) → n < fuel → number 0 (itoa_loop fuel n out) ≡ number n out
unfolding itoa_loop
number-itoa_loop zero n out h = absurd (omega arith)
number-itoa_loop (suc fuel) n out h = elim (Bool-cases (ltb n 10)) [
  | inl small ↦
      rw small (number-digit n (ground arith) 0 out ∙ ap (λ m. number m out) (omega arith))
  | inr big ↦ rw big (
      number-itoa_loop fuel (n / 10) (digit (n % 10) ++ out) (ground arith)
      ∙ (number-digit (n % 10) (omega arith) (n / 10) out ∙ ap (λ m. number m out) (omega arith)))
]

number-itoa : (n : ℕ) → number 0 (itoa n) ≡ n
unfolding itoa number
number-itoa n = number-itoa_loop (suc n) n "" (omega arith)

pub itoa_injective : (m n : ℕ) → itoa m ≡ itoa n → m ≡ n
itoa_injective m n e = sym (number-itoa m) ∙ (ap (number 0) e ∙ number-itoa n)

has_char-cons :
    (c : Char) (s : String)
    → nat_eq (code c) b'-' ≡ false
    → has_char b'-' (String.◌∷◌ c String.[] ++ s) ≡ has_char b'-' s
unfolding has_char
has_char-cons c s h = rw (sep-append c s, h) refl

has_char-digit :
    (d : ℕ) (s : String) → has_char b'-' s ≡ false → has_char b'-' (digit d ++ s) ≡ false
has_char-digit d s h = ground (
  arith,
  has_char-cons "0" s refl,
  has_char-cons "1" s refl,
  has_char-cons "2" s refl,
  has_char-cons "3" s refl,
  has_char-cons "4" s refl,
  has_char-cons "5" s refl,
  has_char-cons "6" s refl,
  has_char-cons "7" s refl,
  has_char-cons "8" s refl,
  has_char-cons "9" s refl,
)

has_char-itoa_loop :
    (fuel n : ℕ) (out : String)
    → has_char b'-' out ≡ false
    → has_char b'-' (itoa_loop fuel n out) ≡ false
unfolding itoa_loop
has_char-itoa_loop zero n out h = h
has_char-itoa_loop (suc fuel) n out h = ground (
  arith,
  has_char-digit n out,
  has_char-digit (n % 10) out,
  has_char-itoa_loop fuel (n / 10) (digit (n % 10) ++ out),
)

pub has_char-itoa : (n : ℕ) → has_char b'-' (itoa n) ≡ false
unfolding itoa has_char
has_char-itoa n = has_char-itoa_loop (suc n) n "" refl
