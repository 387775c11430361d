-- ===== src/Base/Int.antt =====
-- The 64-bit integers of the program: `uint64` is a number below 2 ^ 64, and `int64` a value of ℤ.
use Prim.Native.Nat.{ℕ, ◌-◌, ◌<◌}
use mathlib.Core.Path.{◌≡◌}
use native.Mathlib.Omega.{arith}
use persephone.Base.Tests.{leb, if◌then◌else◌}

-- `negsuc n` is -(n + 1).
pub data ℤ : Type 0 where
  pos : ℕ → ℤ
  negsuc : ℕ → ℤ

-- `math.MaxInt64`
abbrev pub max_int64 : ℕ
max_int64 = 9223372036854775807

abbrev pub u64_mod : ℕ
u64_mod = 18446744073709551616

-- `int64(q)` of a `uint64`
unfoldable pub to_int64 : ℕ → ℤ
to_int64 q = if leb q max_int64 then pos q else negsuc (u64_mod - 1 - q)

-- `uint64(v)` of an `int64`
unfoldable pub to_uint64 : ℤ → ℕ
to_uint64 (pos n) = n
to_uint64 (negsuc n) = u64_mod - 1 - n

pub to_uint64-to_int64 : (q : ℕ) → q < u64_mod → to_uint64 (to_int64 q) ≡ q
unfolding to_uint64 to_int64
to_uint64-to_int64 q h = ground arith
