-- ===== src/Bytes/Bits.antt =====
-- Bits of a byte, as the bitmaps of src/OSMMMap.cpp set, test and clear them. The laws are checked
-- for every byte and every position.
use Prim.Native.Nat.{bit_and, bit_or}
use gpsxdb.Prelude.{
  ℕ, zero, suc, ◌-◌, ◌/◌, ◌^◌, ◌<◌, ◌≡◌, refl, Bool, true, false, not, ◌&&◌, ◌==◌, ltb→lt,
  if◌then◌else◌, arith, ltb,
}

-- `(byte >> k) & 1`.
unfoldable pub bit : ℕ → ℕ → Bool
bit b k = bit_and (b / 2 ^ k) 1 == 1

-- `byte | (1 << k)`.
pub set_bit : ℕ → ℕ → ℕ
set_bit b k = bit_or b (2 ^ k)

-- `byte & ~(1 << k)`.
pub clear_bit : ℕ → ℕ → ℕ
clear_bit b k = bit_and b (255 - 2 ^ k)

-- The table of `test` at the numbers below a bound has no `false`.
passes : (ℕ → Bool) → ℕ → Bool
passes test zero = true
passes test (suc k) = if test k then passes test k else false

passes-at : (test : ℕ → Bool) (k i : ℕ) → i < k → passes test k ≡ true → test i ≡ true
unfolding passes
passes-at test zero i below all = elim below [ ]
passes-at test (suc k) i below all = ground (arith, passes-at test k i)

-- Equality of Booleans.
same : Bool → Bool → Bool
same true b = b
same false b = not b

same_sound : (a b : Bool) → same a b ≡ true → a ≡ b
unfolding same
same_sound true b h = ground arith
same_sound false b h = ground arith

-- A test of a byte and a position, on all of them.
over_bytes : (ℕ → ℕ → Bool) → Bool
over_bytes p = passes (λ b. passes (p b) 8) 256

over_bytes_sound :
    (p : ℕ → ℕ → Bool) (b k : ℕ) → over_bytes p ≡ true → b < 256 → k < 8 → p b k ≡ true
unfolding over_bytes
over_bytes_sound p b k h hb hk = passes-at (p b) 8 k hk (passes-at (λ c. passes (p c) 8) 256 b hb h)

set_row : ℕ → ℕ → ℕ → Bool
set_row b k j = same (bit (set_bit b k) j) (if j == k then true else bit b j)

clear_row : ℕ → ℕ → ℕ → Bool
clear_row b k j = same (bit (clear_bit b k) j) (if j == k then false else bit b j)

set_test : ℕ → ℕ → Bool
set_test b k = ltb (set_bit b k) 256 && passes (set_row b k) 8

clear_test : ℕ → ℕ → Bool
clear_test b k = ltb (clear_bit b k) 256 && passes (clear_row b k) 8

zero_test : ℕ → Bool
zero_test k = same (bit 0 k) false

set_table : over_bytes set_test ≡ true
unfolding over_bytes passes set_test set_row same bit set_bit
set_table = refl

clear_table : over_bytes clear_test ≡ true
unfolding over_bytes passes clear_test clear_row same bit clear_bit
clear_table = refl

zero_table : passes zero_test 8 ≡ true
unfolding passes zero_test same bit
zero_table = refl

both : (a b : Bool) → a && b ≡ true → (a ≡ true) × (b ≡ true)
both a b h = ground arith

module _ (b k : ℕ) (hb : b < 256) (hk : k < 8) where
  set_tests : (ltb (set_bit b k) 256 ≡ true) × (passes (set_row b k) 8 ≡ true)
  unfolding set_test
  set_tests = both _ _ (over_bytes_sound set_test b k set_table hb hk)

  clear_tests : (ltb (clear_bit b k) 256 ≡ true) × (passes (clear_row b k) 8 ≡ true)
  unfolding clear_test
  clear_tests = both _ _ (over_bytes_sound clear_test b k clear_table hb hk)

  pub set_bit-lt : set_bit b k < 256
  set_bit-lt = ltb→lt _ _ set_tests.0

  pub clear_bit-lt : clear_bit b k < 256
  clear_bit-lt = ltb→lt _ _ clear_tests.0

  pub bit-set_bit : (j : ℕ) → j < 8 → bit (set_bit b k) j ≡ (if j == k then true else bit b j)
  unfolding set_row
  bit-set_bit j hj = same_sound _ _ (passes-at (set_row b k) 8 j hj set_tests.1)

  pub bit-clear_bit : (j : ℕ) → j < 8 → bit (clear_bit b k) j ≡ (if j == k then false else bit b j)
  unfolding clear_row
  bit-clear_bit j hj = same_sound _ _ (passes-at (clear_row b k) 8 j hj clear_tests.1)

-- A byte that is zero has no bit set.
pub bit-zero : (k : ℕ) → k < 8 → bit 0 k ≡ false
unfolding zero_test
bit-zero k h = same_sound _ _ (passes-at zero_test 8 k h zero_table)
