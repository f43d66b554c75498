-- ===== src/Prelude/Int.antt =====
-- Signed integers over the native numbers, under the library's names (its ℤ stands on the unary ℕ).
-- Sums and orders go through the two parts of an integer, which are numbers that `omega` reads.
use gpsxdb.Prelude.{ℕ, suc, ◌+◌, ◌≤◌, ◌≡◌, ap, Bool, true, false, not, arith, ltb, if◌then◌else◌}

-- `negsuc n` is -(n + 1).
pub data ℤ : Type 0 where
  pos : ℕ → ℤ
  negsuc : ℕ → ℤ

abbrev pub pos_part : ℤ → ℕ
pos_part (pos n) = n
pos_part (negsuc n) = 0

abbrev pub neg_part : ℤ → ℕ
neg_part (pos n) = 0
neg_part (negsuc n) = suc n

infix 50 ◌≤ℤ◌
abbrev pub ◌≤ℤ◌ : ℤ → ℤ → Type 0
a ≤ℤ b = pos_part a + neg_part b ≤ pos_part b + neg_part a

abbrev pub ltb_ℤ : ℤ → ℤ → Bool
ltb_ℤ a b = ltb (pos_part a + neg_part b) (pos_part b + neg_part a)

unfoldable pub eqb_ℤ : ℤ → ℤ → Bool
eqb_ℤ a b = if ltb_ℤ a b then false else not (ltb_ℤ b a)

pub eqb_ℤ_refl : (a : ℤ) → eqb_ℤ a a ≡ true
unfolding eqb_ℤ
eqb_ℤ_refl a = ground arith

pub eqb_ℤ-eq : (a b : ℤ) → eqb_ℤ a b ≡ true → a ≡ b
unfolding eqb_ℤ
eqb_ℤ-eq (pos a) (pos b) h = ap pos (ground arith)
eqb_ℤ-eq (pos a) (negsuc b) h = absurd (ground arith)
eqb_ℤ-eq (negsuc a) (pos b) h = absurd (ground arith)
eqb_ℤ-eq (negsuc a) (negsuc b) h = ap negsuc (ground arith)
