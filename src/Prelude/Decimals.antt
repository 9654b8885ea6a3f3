-- ===== src/Prelude/Decimals.antt =====
-- Numbers as texts, the way a template literal writes them.
use Prim.Native.Nat.{ℕ, zero, suc, ◌+◌, ◌*◌, ◌-◌, ◌/◌, ◌%◌, ◌≤◌}
use mathlib.Core.Path.{◌≡◌, refl, ap, sym, ◌∙◌}
use mathlib.Core.List.{[], ◌∷◌, ◌++◌}
use native.Mathlib.Omega.{arith}
use openhermit.Prelude.Tests.{ltb, if◌then◌else◌}
use openhermit.Prelude.Texts.{Text}

-- The digits of a number, with as many rounds as the fuel says.
unfoldable pub digits_of : ℕ → ℕ → Text
digits_of zero n = (48 + n) ∷ []
digits_of (suc fuel) n =
    let rest = digits_of fuel (n / 10) in
    if ltb n 10 then (48 + n) ∷ [] else rest ++ (48 + n % 10) ∷ []

-- A number is its own fuel: each round divides it by ten.
unfoldable pub decimal : ℕ → Text
unfolding digits_of
decimal n = digits_of n n

value_from : ℕ → Text → ℕ
value_from n [] = n
value_from n (c ∷ s) = value_from (n * 10 + (c - 48)) s

value_from-append :
    (n : ℕ) (s : Text) (c : ℕ) → value_from n (s ++ c ∷ []) ≡ value_from n s * 10 + (c - 48)
unfolding value_from
value_from-append n [] c = refl
value_from-append n (d ∷ s) c = value_from-append (n * 10 + (d - 48)) s c

value_from-digits_of : (fuel n : ℕ) → n ≤ fuel → value_from 0 (digits_of fuel n) ≡ n
unfolding value_from digits_of
value_from-digits_of zero n h = omega arith
value_from-digits_of (suc fuel) n h = ground (
  arith,
  value_from-append 0 (digits_of fuel (n / 10)) (48 + n % 10),
  value_from-digits_of fuel (n / 10) (omega arith),
)

-- Two numbers are not written alike.
pub decimal_injective : (m n : ℕ) → decimal m ≡ decimal n → m ≡ n
unfolding decimal
decimal_injective m n h =
    sym (value_from-digits_of m m (omega arith))
    ∙ ap (value_from 0) h
    ∙ value_from-digits_of n n (omega arith)
