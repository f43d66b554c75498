-- ===== src/NodeStore/Bitmap.antt =====
-- The bitmap as a set of ids: what setting and clearing one id does to the tests of all.
use gpsxdb.Prelude.{ℕ, ◌/◌, ◌%◌, ◌<◌, ◌≤◌, ◌≡◌, true, false, ◌==◌, if◌then◌else◌, arith}
use gpsxdb.Bytes.Bits.{clear_bit, set_bit-lt, clear_bit-lt, bit-set_bit, bit-clear_bit, bit-zero}
use gpsxdb.NodeStore.{bitmap_set, bitmap_get, replace, resized}

abbrev pub IsBitmap : (ℕ → ℕ) → Type 0
IsBitmap bm = (i : ℕ) → bm i < 256

module _ (bm : ℕ → ℕ) (h : IsBitmap bm) (n id : ℕ) where
  pub bitmap_set-IsBitmap : IsBitmap (bitmap_set bm n id)
  unfolding bitmap_set
  bitmap_set-IsBitmap i =
      ground (arith, h i, set_bit-lt (bm (id / 8)) (id % 8) (h (id / 8)) (omega arith))

  pub bitmap_get-set :
      (j : ℕ)
      → id / 8 < n
      → bitmap_get (bitmap_set bm n id) n j ≡ (if j == id then true else bitmap_get bm n j)
  unfolding bitmap_set bitmap_get
  bitmap_get-set j fits =
      ground
        (arith, bit-set_bit (bm (id / 8)) (id % 8) (h (id / 8)) (omega arith) (j % 8) (omega arith))

  pub replace-IsBitmap : IsBitmap (replace bm (id / 8) (clear_bit (bm (id / 8)) (id % 8)))
  replace-IsBitmap i =
      ground (arith, h i, clear_bit-lt (bm (id / 8)) (id % 8) (h (id / 8)) (omega arith))

  pub bitmap_get-clear :
      (j : ℕ)
      → id / 8 < n
      → bitmap_get (replace bm (id / 8) (clear_bit (bm (id / 8)) (id % 8))) n j
        ≡ (if j == id then false else bitmap_get bm n j)
  unfolding bitmap_get
  bitmap_get-clear j fits =
      ground (
        arith,
        bit-clear_bit (bm (id / 8)) (id % 8) (h (id / 8)) (omega arith) (j % 8) (omega arith),
      )

module _ (bm : ℕ → ℕ) (h : IsBitmap bm) (n m : ℕ) where
  pub resized-IsBitmap : IsBitmap (resized 0 bm n)
  unfolding resized
  resized-IsBitmap i = ground (arith, h i)

  -- A bitmap that was made larger holds the same ids.
  pub bitmap_get-resized : (j : ℕ) → n ≤ m → bitmap_get (resized 0 bm n) m j ≡ bitmap_get bm n j
  unfolding bitmap_get resized
  bitmap_get-resized j le = ground (arith, bit-zero (j % 8) (omega arith))
