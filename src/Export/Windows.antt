-- ===== src/Export/Windows.antt =====
-- The windows of the chunks: an id between the least and the greatest lies in exactly one.
use native.Mathlib.Nat.{div-add-mod', mod-lt}
use gpsxdb.Prelude.{
  ℕ, zero, suc, ◌+◌, ◌-◌, ◌*◌, ◌/◌, ◌≡◌, ◌≤◌, ◌<◌, refl, ◌∙◌, Bool, true, false, ◌&&◌, ltb, leb,
  if◌then◌else◌, Bool-cases, inl, inr, arith,
}
use gpsxdb.Prelude.Int.{ℤ, pos, negsuc, pos_part, neg_part, ltb_ℤ}
use gpsxdb.Export.{shift, distance, between, span, chunk_count, chunk_size, in_window}

shift_parts :
    (a : ℤ) (k : ℕ) → pos_part (shift a k) + neg_part a ≡ pos_part a + k + neg_part (shift a k)
unfolding shift
shift_parts (pos n) k = omega arith
shift_parts (negsuc n) k = ground arith

mul_next : (a b : ℕ) → (a + 1) * b ≡ a * b + b
mul_next a b = omega arith

mul_suc : (a b : ℕ) → suc a * b ≡ a * b + b
mul_suc a b = let e : suc a ≡ a + 1 = omega arith in rw e (mul_next a b)

round_up : (s n : ℕ) → 0 < n → s ≤ (s + n - 1) / n * n
round_up s n h = let e = div-add-mod' (s + n - 1) n in let l = mod-lt (s + n - 1) h in omega arith

pos_factor : (s n q : ℕ) → 0 < s → s ≤ n * q → 0 < q
pos_factor s n zero h l = omega arith
pos_factor s n (suc q) h l = omega arith

-- The number of the chunks from `ci` on that a test passes.
abbrev pub tally : (ℕ → Bool) → ℕ → ℕ → ℕ
tally sel zero ci = 0
tally sel (suc k) ci = (if sel ci then 1 else 0) + tally sel k (ci + 1)

pub tally-cong : (f g : ℕ → Bool) (k ci : ℕ) → ((i : ℕ) → f i ≡ g i) → tally f k ci ≡ tally g k ci
tally-cong f g zero ci h = refl
tally-cong f g (suc k) ci h = rw (h ci, tally-cong f g k (ci + 1) h) refl

pub tally-none : (f : ℕ → Bool) (k ci : ℕ) → ((i : ℕ) → f i ≡ false) → tally f k ci ≡ 0
tally-none f zero ci h = refl
tally-none f (suc k) ci h = rw (h ci, tally-none f k (ci + 1) h) refl

abbrev is_in : ℕ → ℕ → ℕ → Bool
is_in size k ci = leb (ci * size) k && ltb k (ci * size + size)

tally-is_in :
    (size k n ci : ℕ)
    → tally (is_in size k) n ci
      ≡ (if leb (ci * size) k && ltb k (ci * size + n * size) then 1 else 0)
tally-is_in size k zero ci = ground arith
tally-is_in size k (suc n) ci =
    let next = mul_next ci size in
    let ih : tally (is_in size k) n (ci + 1)
        ≡ (if leb (ci * size + size) k && ltb k (ci * size + size + n * size) then 1 else 0) =
      rw (← next) (tally-is_in size k n (ci + 1)) in
    let end : suc n * size ≡ n * size + size = mul_suc n size in rw (ih, end) (ground arith)

module _ (min_id max_id : ℤ) (threads : ℕ) where
  abbrev size : ℕ
  size = chunk_size min_id max_id threads

  abbrev count : ℕ
  count = chunk_count min_id max_id threads

  count_pos : 0 < count
  unfolding chunk_count
  count_pos = omega arith

  span_covered : span min_id max_id threads ≤ count * size
  unfolding chunk_size
  span_covered = let r = round_up (span min_id max_id threads) count count_pos in omega arith

  size_pos : 0 < size
  size_pos =
      let cover = span_covered in
      pos_factor (span min_id max_id threads) count size (omega arith) cover

  in_window-is_in :
      (id : ℤ)
      → between min_id max_id id ≡ true
      → (ci : ℕ) → in_window min_id max_id threads ci id ≡ is_in size (distance min_id id) ci
  unfolding in_window
  in_window-is_in id h ci =
      let lo = shift_parts min_id (ci * size) in
      let hi = shift_parts min_id (ci * size + size - 1) in
      let pos = size_pos in
      elim (Bool-cases (ltb_ℤ max_id (shift min_id (ci * size + size - 1)))) [
        | inl e ↦ rw e (ground arith)
        | inr e ↦ rw e (ground arith)
      ]

  -- An id from the least to the greatest lies in the window of one chunk.
  pub tally-in_window :
      (id : ℤ)
      → between min_id max_id id ≡ true
      → tally (λ ci. in_window min_id max_id threads ci id) count 0 ≡ 1
  tally-in_window id h =
      let inside = tally-is_in size (distance min_id id) count 0 in
      let cover = span_covered in
      tally-cong (λ ci. in_window min_id max_id threads ci id) (is_in size (distance min_id id))
        count 0 (in_window-is_in id h)
      ∙ inside
      ∙ ground arith
