-- ===== src/Prelude/Rational.antt =====
-- Python floats, read as exact rational numbers: (up - down) / (below + 1). Rounding, infinities
-- and NaN are left out.
use Prim.Native.Nat.{ℕ, suc, ◌+◌, ◌-◌, ◌*◌}
use mathlib.Core.Path.{◌≡◌}
use mathlib.Core.Bool.{Bool, not}
use native.Mathlib.Omega.{arith}
use analyst_watch.Prelude.Tests.{ltb, leb, eqb, if◌then◌else◌}

pub record Rational : Type 0 where
  pub up : ℕ
  pub down : ℕ
  pub below : ℕ

abbrev pub den : Rational → ℕ
den q = suc q.below

-- `float(n)`
abbrev pub of_ℕ : ℕ → Rational
of_ℕ n = record { up = n; down = 0; below = 0 }

-- The literal a / (b + 1).
abbrev pub ratio : ℕ → ℕ → Rational
ratio a b = record { up = a; down = 0; below = b }

infixl 65 ◌+ℚ◌ ◌-ℚ◌
infixl 70 ◌*ℚ◌ ◌/ℚ◌
infix 50 ◌<ℚ◌ ◌≤ℚ◌ ◌==ℚ◌
unfoldable pub ◌+ℚ◌ : Rational → Rational → Rational
a +ℚ b = record {
  up = a.up * den b + b.up * den a;
  down = a.down * den b + b.down * den a;
  below = den a * den b - 1;
}

unfoldable pub ◌-ℚ◌ : Rational → Rational → Rational
a -ℚ b = record {
  up = a.up * den b + b.down * den a;
  down = a.down * den b + b.up * den a;
  below = den a * den b - 1;
}

unfoldable pub ◌*ℚ◌ : Rational → Rational → Rational
a *ℚ b = record {
  up = a.up * b.up + a.down * b.down;
  down = a.up * b.down + a.down * b.up;
  below = den a * den b - 1;
}

unfoldable pub abs : Rational → Rational
abs a = record { up = (a.up - a.down) + (a.down - a.up); down = 0; below = a.below }

-- A division by zero gives zero here; the source divides by what it has tested.
unfoldable pub ◌/ℚ◌ : Rational → Rational → Rational
a /ℚ b =
    let m = (b.up - b.down) + (b.down - b.up) in
    if eqb m 0
    then of_ℕ 0
    else if ltb b.down b.up
    then record { up = a.up * den b; down = a.down * den b; below = den a * m - 1 }
    else record { up = a.down * den b; down = a.up * den b; below = den a * m - 1 }

abbrev pub ◌<ℚ◌ : Rational → Rational → Bool
a <ℚ b = ltb (a.up * den b + b.down * den a) (b.up * den a + a.down * den b)

abbrev pub ◌≤ℚ◌ : Rational → Rational → Bool
a ≤ℚ b = leb (a.up * den b + b.down * den a) (b.up * den a + a.down * den b)

abbrev pub ◌==ℚ◌ : Rational → Rational → Bool
a ==ℚ b = eqb (a.up * den b + b.down * den a) (b.up * den a + a.down * den b)

pub lt-not-le : (a b : Rational) → (a <ℚ b) ≡ not (b ≤ℚ a)
lt-not-le a b = ground arith
