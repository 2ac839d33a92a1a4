-- ===== src/Prelude/Order.antt =====
-- The strict orders by which `sort.Ints` and `sort.Strings` compare.
use emulate.Prelude.Tests.{Eq}
use mathlib.Core.Path.{◌≡◌}
use mathlib.Core.Bool.{Bool, true, false}

pub record Order {ℓ} (A : Type ℓ) : Type ℓ where
  pub eq : Eq A
  pub less : A → A → Bool
  pub irrefl : (a : A) → less a a ≡ false
  pub trans : (a b c : A) → less a b ≡ true → less b c ≡ true → less a c ≡ true
  pub total : (a b : A) → less a b ≡ false → less b a ≡ false → a ≡ b
