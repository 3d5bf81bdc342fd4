-- ===== src/Prelude/Word.antt =====
-- Machine arithmetic of the source: checked, saturating and rounding operations on u32 and u64
-- values, which are native numbers below the modulus.
use Prim.Native.Nat.{ℕ, ◌+◌, ◌-◌, ◌*◌, ◌/◌, ◌%◌, ◌≤◌, ◌<◌, min}
use mathlib.Core.Path.{◌≡◌}
use mathlib.Core.Bool.{Bool}
use mathlib.Core.Option.{Option, none, some}
use native.Mathlib.Omega.{arith}
use tensor_ash.Prelude.Tests.{ltb, ◌==◌, if◌then◌else◌}

abbrev pub u32_mod : ℕ
u32_mod = 0x1_0000_0000

abbrev pub u32_max : ℕ
u32_max = 0xffff_ffff

abbrev pub u64_mod : ℕ
u64_mod = 0x1_0000_0000_0000_0000

abbrev pub u64_max : ℕ
u64_max = 0xffff_ffff_ffff_ffff

-- `u64::checked_mul` and `u64::checked_add`.
unfoldable pub checked_mul : ℕ → ℕ → Option ℕ
checked_mul a b = if ltb (a * b) u64_mod then some (a * b) else none

unfoldable pub checked_add : ℕ → ℕ → Option ℕ
checked_add a b = if ltb (a + b) u64_mod then some (a + b) else none

-- `u32::checked_mul`.
unfoldable pub checked_mul32 : ℕ → ℕ → Option ℕ
checked_mul32 a b = if ltb (a * b) u32_mod then some (a * b) else none

-- `u64::saturating_mul` and `u64::saturating_add`.
unfoldable pub saturating_mul : ℕ → ℕ → ℕ
saturating_mul a b = min (a * b) u64_max

unfoldable pub saturating_add : ℕ → ℕ → ℕ
saturating_add a b = min (a + b) u64_max

-- `div_ceil`: the quotient, and one more for a remainder.
unfoldable pub div_ceil : ℕ → ℕ → ℕ
div_ceil a b = a / b + (if a % b == 0 then 0 else 1)

-- `is_multiple_of` by a divisor that is not zero.
abbrev pub is_multiple_of : ℕ → ℕ → Bool
is_multiple_of a b = a % b == 0

-- `u64::checked_next_multiple_of` by a number that is not zero.
unfoldable pub checked_next_multiple_of : ℕ → ℕ → Option ℕ
checked_next_multiple_of a b =
    if a % b == 0
    then some a
    else if ltb (a + (b - a % b)) u64_mod
    then some (a + (b - a % b))
    else none

pub checked_mul-cases : (a b c : ℕ) → checked_mul a b ≡ some c → (c ≡ a * b) × (a * b < u64_mod)
unfolding checked_mul
checked_mul-cases a b c h = ground arith

pub checked_add-cases : (a b c : ℕ) → checked_add a b ≡ some c → (c ≡ a + b) × (a + b < u64_mod)
unfolding checked_add
checked_add-cases a b c h = ground arith

-- The rounded quotient by a numeral covers its dividend, with less than one unit to spare.
pub div_ceil-covers : (a b : ℕ) → 0 < b → (a ≤ div_ceil a b * b) × (div_ceil a b * b < a + b)
unfolding div_ceil
div_ceil-covers a b h = grind arith

-- `u32::saturating_mul`.
unfoldable pub saturating_mul32 : ℕ → ℕ → ℕ
saturating_mul32 a b = min (a * b) u32_max

-- `u32::saturating_add`.
unfoldable pub saturating_add32 : ℕ → ℕ → ℕ
saturating_add32 a b = min (a + b) u32_max

-- The operators of a release build, which wrap around.
abbrev pub add32 : ℕ → ℕ → ℕ
add32 a b = (a + b) % u32_mod

abbrev pub mul32 : ℕ → ℕ → ℕ
mul32 a b = (a * b) % u32_mod

abbrev pub sub32 : ℕ → ℕ → ℕ
sub32 a b = (a + u32_mod - b) % u32_mod

abbrev pub add64 : ℕ → ℕ → ℕ
add64 a b = (a + b) % u64_mod

abbrev pub sub64 : ℕ → ℕ → ℕ
sub64 a b = (a + u64_mod - b) % u64_mod

abbrev pub mul64 : ℕ → ℕ → ℕ
mul64 a b = (a * b) % u64_mod

-- `u32::try_from` of a u64.
unfoldable pub try_u32 : ℕ → Option ℕ
try_u32 a = if ltb a u32_mod then some a else none
