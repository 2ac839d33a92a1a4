-- ===== src/Prelude/Int64.antt =====
-- Arithmetic of Go's `int` and `int64`: 64 bits, two's complement.
use emulate.Prelude.Tests.{ltb, if◌then◌else◌}
use emulate.Prelude.Int.{ℤ, pos, negsuc, of_unsigned}
use Prim.Native.Nat.{ℕ, suc, ◌+◌, ◌-◌, ◌*◌, ◌%◌, ◌^◌, ◌<◌}
use mathlib.Core.Path.{◌≡◌}
use native.Mathlib.Omega.{arith}

-- The sum of integers.
unfoldable pub plus : ℤ → ℤ → ℤ
plus (pos a) (pos b) = pos (a + b)
plus (pos a) (negsuc b) = if ltb b a then pos (a - suc b) else negsuc (b - a)
plus (negsuc a) (pos b) = if ltb a b then pos (b - suc a) else negsuc (a - b)
plus (negsuc a) (negsuc b) = negsuc (suc (a + b))

-- A number of seconds in milliseconds.
unfoldable pub thousandfold : ℤ → ℤ
thousandfold (pos a) = pos (a * 1000)
thousandfold (negsuc a) = negsuc (a * 1000 + 999)

-- What 64 bits keep of an integer.
unfoldable pub wrap : ℤ → ℤ
wrap (pos a) = of_unsigned (a % 2 ^ 64)
wrap (negsuc a) = of_unsigned (2 ^ 64 - 1 - a % 2 ^ 64)

-- `a + b`
unfoldable pub add_int64 : ℤ → ℤ → ℤ
add_int64 a b = wrap (plus a b)

-- `now + int64(seconds) * 1000`
unfoldable pub after_seconds : ℤ → ℤ → ℤ
after_seconds now seconds = add_int64 now (wrap (thousandfold seconds))

-- Without an overflow the sum is that of the numbers.
pub after_seconds-eq :
    (now seconds : ℕ)
    → now + seconds * 1000 < 2 ^ 63
    → after_seconds (pos now) (pos seconds) ≡ pos (now + seconds * 1000)
unfolding after_seconds add_int64 wrap plus thousandfold of_unsigned
after_seconds-eq now seconds h = ground arith
