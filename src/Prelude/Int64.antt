-- ===== src/Prelude/Int64.antt =====
-- Go's int64. The number x stands for the integer x - 2 ^ 63, so values lie below 2 ^ 64, the order
-- of integers is the order of numbers, and every operation wraps as Go's does.
use go_norn.Prelude.Tests.{leb, if◌then◌else◌}
use Prim.Native.Nat.{ℕ, ◌+◌, ◌-◌, ◌/◌, ◌%◌, ◌^◌, ◌≤◌, ◌<◌}
use mathlib.Core.Path.{◌≡◌, refl}
use native.Mathlib.Omega.{arith}

abbrev pub Int64 : Type 0
Int64 = ℕ

abbrev pub half : ℕ
half = 2 ^ 63

abbrev pub modulus : ℕ
modulus = 2 ^ 64

-- The literals n and -n.
abbrev pub int : ℕ → Int64
int n = half + n

abbrev pub minus : ℕ → Int64
minus n = half - n

abbrev pub InRange : Int64 → Type 0
InRange a = a < modulus

-- a + b
abbrev pub add64 : Int64 → Int64 → Int64
add64 a b = (a + b + half) % modulus

-- a - b
abbrev pub sub64 : Int64 → Int64 → Int64
sub64 a b = (a + modulus + half - b) % modulus

-- -a
abbrev pub neg : Int64 → Int64
neg a = (modulus - a) % modulus

-- a / k at a positive constant k: the quotient is truncated towards zero.
abbrev pub quot : Int64 → ℕ → Int64
quot a k = if leb half a then half + (a - half) / k else half - (half - a) / k

-- Where nothing overflows, the operations are those of the integers.
pub add64-exact : (a n : ℕ) → a + n < modulus → add64 a (int n) ≡ a + n
add64-exact a n h = omega arith

pub sub64-exact : (a b : ℕ) → a < modulus → b ≤ a → a ≤ b + (half - 1) → sub64 a b ≡ int (a - b)
sub64-exact a b ha h k = omega arith

neg-int : neg (int 5) ≡ minus 5
neg-int = refl

quot-minus : quot (minus 7) 2 ≡ minus 3
quot-minus = refl

sub-minus : sub64 (int 2) (minus 3) ≡ int 5
sub-minus = refl
