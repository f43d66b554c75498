-- ===== src/Bytes.antt =====
-- Bytes and the words made of them: `uint8_t` buffers are lists of numbers below 256, a `uint32_t`
-- or `uint64_t` is a number below 2 ^ 32 or 2 ^ 64. A `double` is its 64-bit pattern: the code that
-- is modelled here moves doubles by `memcpy` and leaves their arithmetic to libraries.
pub mod Words
pub mod Signed
pub mod Bits
use gpsxdb.Prelude.{
  ℕ, zero, suc, ◌+◌, ◌*◌, ◌/◌, ◌%◌, ◌^◌, ◌<◌, ◌≡◌, refl, List, [], ◌∷◌, arith, length, get_or, All,
}

abbrev pub Bytes : Type 0
Bytes = List ℕ

-- The bit pattern of a `double`.
abbrev pub Double : Type 0
Double = ℕ

abbrev pub IsByte : ℕ → Type 0
IsByte b = b < 256

-- `writeLE32` and the `wu32` lambdas: four `push_back`s of `(v >> 8 * i) & 0xFF`.
unfoldable pub write_le32 : ℕ → Bytes
write_le32 v = v % 256 ∷ v / 2 ^ 8 % 256 ∷ v / 2 ^ 16 % 256 ∷ v / 2 ^ 24 % 256 ∷ []

-- The `k` low bytes of `v`, the lowest first: `memcpy` on a little-endian host, and the `wf64` loops.
unfoldable pub write_le : ℕ → ℕ → Bytes
write_le zero v = []
write_le (suc k) v = v % 256 ∷ write_le k (v / 256)

-- `u |= data[pos + i] << (8 * i)` for `i` below `k`; the shifted bytes do not overlap.
unfoldable pub read_le : ℕ → Bytes → ℕ → ℕ
read_le zero bs pos = 0
read_le (suc k) bs pos = get_or bs pos 0 + 256 * read_le k bs (pos + 1)

pub length-write_le : (k v : ℕ) → length (write_le k v) ≡ k
unfolding write_le
length-write_le zero v = refl
length-write_le (suc k) v = omega (arith, length-write_le k (v / 256))

pub write_le-IsByte : (k v : ℕ) → All IsByte (write_le k v)
unfolding write_le
write_le-IsByte zero v = tt
write_le-IsByte (suc k) v = (omega arith, write_le-IsByte k (v / 256))

pub write_le32-IsByte : (v : ℕ) → All IsByte (write_le32 v)
unfolding write_le32
write_le32-IsByte v = omega arith
