-- ===== src/Prelude/Int.antt =====
-- Go's `int`: 64 bits, two's complement, read as a signed number.
use emulate.Prelude.Tests.{Eq, ltb, eqb, if◌then◌else◌}
use emulate.Prelude.Order.{Order}
use Prim.Native.Nat.{ℕ, zero, suc, ◌+◌, ◌-◌, ◌^◌}
use mathlib.Core.Path.{◌≡◌}
use mathlib.Core.Logic.{◌↔◌}
use mathlib.Core.Bool.{Bool, true, false}
use native.Mathlib.Omega.{arith}

-- `negsuc n` is -(n + 1).
pub data ℤ : Type 0 where
  pos : ℕ → ℤ
  negsuc : ℕ → ℤ

abbrev pub max_int : ℕ
max_int = 2 ^ 63 - 1

-- `i + 1` on `int`, which wraps round to the least number.
unfoldable pub succ : ℤ → ℤ
succ (pos n) = if eqb n max_int then negsuc max_int else pos (n + 1)
succ (negsuc zero) = pos 0
succ (negsuc (suc n)) = negsuc n

-- The conversion `int(v)` of an unsigned number.
unfoldable pub of_unsigned : ℕ → ℤ
of_unsigned n = if ltb n (2 ^ 63) then pos n else negsuc (2 ^ 64 - 1 - n)

abbrev pub int_beq : ℤ → ℤ → Bool
int_beq (pos a) (pos b) = eqb a b
int_beq (negsuc a) (negsuc b) = eqb a b
int_beq _ _ = false

abbrev pub int_less : ℤ → ℤ → Bool
int_less (pos a) (pos b) = ltb a b
int_less (pos a) (negsuc b) = false
int_less (negsuc a) (pos b) = true
int_less (negsuc a) (negsuc b) = ltb b a

pub int_beq_iff : (a b : ℤ) → (int_beq a b ≡ true) ↔ (a ≡ b)
int_beq_iff (pos a) (pos b) = ground arith
int_beq_iff (pos a) (negsuc b) = ground arith
int_beq_iff (negsuc a) (pos b) = ground arith
int_beq_iff (negsuc a) (negsuc b) = ground arith

instance abbrev pub int_eq : Eq ℤ
int_eq = record { beq = int_beq; beq_iff = int_beq_iff }

pub int_less_irrefl : (a : ℤ) → int_less a a ≡ false
int_less_irrefl (pos a) = ground arith
int_less_irrefl (negsuc a) = ground arith

pub int_less_trans : (a b c : ℤ) → int_less a b ≡ true → int_less b c ≡ true → int_less a c ≡ true
int_less_trans (pos a) (pos b) (pos c) h k = ground arith
int_less_trans (negsuc a) (negsuc b) (negsuc c) h k = ground arith
int_less_trans _ _ _ h k = ground arith

pub int_less_total : (a b : ℤ) → int_less a b ≡ false → int_less b a ≡ false → a ≡ b
int_less_total (pos a) (pos b) h k = ground arith
int_less_total (negsuc a) (negsuc b) h k = ground arith
int_less_total _ _ h k = ground arith

instance abbrev pub int_order : Order ℤ
int_order = record {
  eq = int_eq;
  less = int_less;
  irrefl = int_less_irrefl;
  trans = int_less_trans;
  total = int_less_total;
}
