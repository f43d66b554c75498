-- ===== src/Bytes/Signed.antt =====
-- Two's complement: `static_cast` between signed and unsigned integers of 32 and 64 bits.
use gpsxdb.Prelude.{ℕ, ◌-◌, ◌^◌, ◌<◌, ◌≡◌, arith, ltb, if◌then◌else◌}
use gpsxdb.Prelude.Int.{ℤ, pos, negsuc}

-- `static_cast<int32_t>` of a `uint32_t`.
pub to_i32 : ℕ → ℤ
to_i32 u = if ltb u (2 ^ 31) then pos u else negsuc (2 ^ 32 - 1 - u)

-- `static_cast<uint32_t>` of an `int`.
unfoldable pub to_u32 : ℤ → ℕ
to_u32 (pos n) = n
to_u32 (negsuc n) = 2 ^ 32 - 1 - n

abbrev pub IsI32 : ℤ → Type 0
IsI32 (pos n) = n < 2 ^ 31
IsI32 (negsuc n) = n < 2 ^ 31

pub to_i32-to_u32 : (z : ℤ) → IsI32 z → to_i32 (to_u32 z) ≡ z
unfolding to_i32 to_u32
to_i32-to_u32 (pos n) h = ground arith
to_i32-to_u32 (negsuc n) h = ground arith

pub to_u32-lt : (z : ℤ) → IsI32 z → to_u32 z < 2 ^ 32
unfolding to_u32
to_u32-lt (pos n) h = omega arith
to_u32-lt (negsuc n) h = omega arith

-- `static_cast<size_t>` of an `int64_t`.
unfoldable pub to_size : ℤ → ℕ
to_size (pos n) = n
to_size (negsuc n) = 2 ^ 64 - 1 - n

abbrev pub IsI64 : ℤ → Type 0
IsI64 (pos n) = n < 2 ^ 63
IsI64 (negsuc n) = n < 2 ^ 63

-- `memcpy` between an `int64_t` and eight bytes.
unfoldable pub to_i64 : ℕ → ℤ
to_i64 u = if ltb u (2 ^ 63) then pos u else negsuc (2 ^ 64 - 1 - u)

pub to_i64-to_size : (z : ℤ) → IsI64 z → to_i64 (to_size z) ≡ z
unfolding to_i64 to_size
to_i64-to_size (pos n) h = ground arith
to_i64-to_size (negsuc n) h = ground arith

pub to_size-lt : (z : ℤ) → IsI64 z → to_size z < 2 ^ 64
unfolding to_size
to_size-lt (pos n) h = omega arith
to_size-lt (negsuc n) h = omega arith
