-- ===== src/Prelude/Decimal.antt =====
-- strconv.Itoa on numbers that are not negative.
use Prim.Native.Nat.{ℕ, zero, suc, ◌+◌, ◌-◌, ◌*◌, ◌/◌, ◌%◌, ◌≤◌, ◌<◌}
use mathlib.Core.Path.{◌≡◌, refl, sym, ap, ◌∙◌}
use mathlib.Core.List.{[], ◌∷◌}
use native.Mathlib.Omega.{arith}
use paddle_flow.Prelude.Tests.{ltb, if◌then◌else◌, Bool-cases}
use mathlib.Core.Logic.{inl, inr}
use paddle_flow.Prelude.Texts.{Text}
use paddle_flow.Prelude.Lists.{All}

-- One unit of fuel for each digit.
unfoldable digits : ℕ → ℕ → Text → Text
digits zero n out = out
digits (suc k) n out =
    let rest = digits k (n / 10) ((48 + n % 10) ∷ out) in if ltb n 10 then (48 + n) ∷ out else rest

unfoldable pub decimal : ℕ → Text
unfolding digits
decimal n = digits (suc n) n []

-- The number that digits spell behind `n`.
abbrev pub value : ℕ → Text → ℕ
value n [] = n
value n (c ∷ s) = value (n * 10 + (c - 48)) s

abbrev pub IsDigit : ℕ → Type 0
IsDigit c = (48 ≤ c) × (c ≤ 57)

value-digits : (k n : ℕ) (out : Text) → n < k → value 0 (digits k n out) ≡ value n out
unfolding digits
value-digits zero n out h = absurd (omega (arith, h))
value-digits (suc k) n out h = ground (arith, h, value-digits k (n / 10) ((48 + n % 10) ∷ out))

digits-IsDigit : (k n : ℕ) (out : Text) → All IsDigit out → All IsDigit (digits k n out)
unfolding digits
digits-IsDigit zero n out h = h
digits-IsDigit (suc k) n out h = ground (arith, digits-IsDigit k (n / 10) ((48 + n % 10) ∷ out))

pub value-decimal : (n : ℕ) → value 0 (decimal n) ≡ n
unfolding decimal
value-decimal n = value-digits (suc n) n [] (omega arith)

pub decimal-IsDigit : (n : ℕ) → All IsDigit (decimal n)
unfolding decimal
decimal-IsDigit n = digits-IsDigit (suc n) n [] tt

pub decimal-inj : (m n : ℕ) → decimal m ≡ decimal n → m ≡ n
decimal-inj m n e = sym (value-decimal m) ∙ ap (value 0) e ∙ value-decimal n

digits-ne-nil :
    (k n : ℕ) (c : ℕ) (out : Text) → (d : ℕ) × (s : Text) × (digits k n (c ∷ out) ≡ d ∷ s)
unfolding digits
digits-ne-nil zero n c out = (c, out, refl)
digits-ne-nil (suc k) n c out = elim (Bool-cases (ltb n 10)) [
  | inl e ↦ (48 + n, c ∷ out, rw e refl)
  | inr e ↦
      let (d, s, at_rest) = digits-ne-nil k (n / 10) (48 + n % 10) (c ∷ out) in (d, s, rw e at_rest)
]

pub decimal_cons : (n : ℕ) → (d : ℕ) × (s : Text) × (decimal n ≡ d ∷ s)
unfolding decimal digits
decimal_cons n = elim (Bool-cases (ltb n 10)) [
  | inl e ↦ (48 + n, [], rw e refl)
  | inr e ↦ let (d, s, at_rest) = digits-ne-nil n (n / 10) (48 + n % 10) [] in (d, s, rw e at_rest)
]
