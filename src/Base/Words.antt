-- ===== src/Base/Words.antt =====
-- Machine integers: the standard library's wrapping and saturating operations on `u64`, `usize`
-- (64 bits wide) and `u128`.
use Prim.Native.Nat.{ℕ, ◌+◌, ◌-◌, ◌*◌, ◌%◌, ◌≤◌, ◌<◌}
use mathlib.Core.Path.{◌≡◌}
use native.Mathlib.Omega.{arith}
use locus.Base.Tests.{leb, ltb, if◌then◌else◌}

abbrev pub u64_mod : ℕ
u64_mod = 18446744073709551616

abbrev pub u64_max : ℕ
u64_max = 18446744073709551615

abbrev pub u128_max : ℕ
u128_max = 340282366920938463463374607431768211455

-- The value, or the greatest one of the type.
unfoldable pub saturate : ℕ → ℕ → ℕ
saturate top n = if leb n top then n else top

-- `a += b` and `a -= b` on `u64` and `usize`, as a release build computes them.
unfoldable pub wrapping_add : ℕ → ℕ → ℕ
wrapping_add a b = (a + b) % u64_mod

unfoldable pub wrapping_sub : ℕ → ℕ → ℕ
wrapping_sub a b = (a + u64_mod - b) % u64_mod

abbrev pub saturating_add : ℕ → ℕ → ℕ
saturating_add a b = saturate u64_max (a + b)

abbrev pub saturating_mul : ℕ → ℕ → ℕ
saturating_mul a b = saturate u64_max (a * b)

-- `u64::clamp` with a lower end that is not above the upper one.
unfoldable pub clamp : ℕ → ℕ → ℕ → ℕ
clamp lo hi x = if ltb x lo then lo else if ltb hi x then hi else x

pub saturate-le : (top n : ℕ) → saturate top n ≤ top
unfolding saturate
saturate-le top n = ground arith

pub saturate-le_self : (top n : ℕ) → saturate top n ≤ n
unfolding saturate
saturate-le_self top n = ground arith

pub saturate-eq_of_le : (top n : ℕ) → n ≤ top → saturate top n ≡ n
unfolding saturate
saturate-eq_of_le top n h = ground arith

-- A saturated value below the top is the exact one.
pub saturate-exact : (top n bound : ℕ) → saturate top n ≤ bound → bound < top → n ≤ bound
unfolding saturate
saturate-exact top n bound h l = ground arith

pub saturate_mono : (top m n : ℕ) → m ≤ n → saturate top m ≤ saturate top n
unfolding saturate
saturate_mono top m n h = ground arith

pub wrapping_add-eq_of_lt : (a b : ℕ) → a + b < u64_mod → wrapping_add a b ≡ a + b
unfolding wrapping_add
wrapping_add-eq_of_lt a b h = omega arith

pub wrapping_sub-eq_of_le : (a b : ℕ) → b ≤ a → a < u64_mod → wrapping_sub a b ≡ a - b
unfolding wrapping_sub
wrapping_sub-eq_of_le a b h l = omega arith

pub clamp_bounds : (lo hi x : ℕ) → lo ≤ hi → (lo ≤ clamp lo hi x) × (clamp lo hi x ≤ hi)
unfolding clamp
clamp_bounds lo hi x h = ground arith
