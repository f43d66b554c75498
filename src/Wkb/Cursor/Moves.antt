-- ===== src/Wkb/Cursor/Moves.antt =====
-- How far a read moves a cursor: never out of the buffer, and exactly its width if it does not fail.
use gpsxdb.Prelude.{ℕ, ◌+◌, ◌≤◌, ◌≡◌, refl, ◌∙◌, false, arith, length}
use gpsxdb.Wkb.Cursor.{Cursor, u8, u32, f64}

-- `c'` is `c`, moved on by `m` bytes or more.
pub record Moves (c : Cursor) (m : ℕ) (c' : Cursor) : Type 0 where
  pub same : c'.bytes ≡ c.bytes
  pub forward : c'.failed ≡ false → c.pos + m ≤ c'.pos
  pub inside : c'.pos ≤ length c'.bytes
  pub sticky : c'.failed ≡ false → c.failed ≡ false

abbrev pub IsInside : Cursor → Type 0
IsInside c = c.pos ≤ length c.bytes

module _ (c : Cursor) (h : IsInside c) where
  pub u8-Moves : Moves c 1 (u8 c).1
  unfolding u8
  u8-Moves = ground arith

  pub u32-Moves : Moves c 4 (u32 c).1
  unfolding u32
  u32-Moves = ground arith

  pub f64-Moves : Moves c 8 (f64 c).1
  unfolding f64
  f64-Moves = ground arith

pub Moves-refl : (c : Cursor) → IsInside c → Moves c 0 c
Moves-refl c h = record { same = refl; forward = λ e. omega arith; inside = h; sticky = λ e. e }

pub Moves-trans :
    (c c' c'' : Cursor) (m n : ℕ) → Moves c m c' → Moves c' n c'' → Moves c (m + n) c''
Moves-trans c c' c'' m n u v = record {
  same = v.same ∙ u.same;
  forward = λ e. omega (arith, v.forward e, u.forward (v.sticky e));
  inside = v.inside;
  sticky = λ e. u.sticky (v.sticky e);
}

pub Moves-weaken : (c c' : Cursor) (m n : ℕ) → n ≤ m → Moves c m c' → Moves c n c'
Moves-weaken c c' m n h v = record {
  same = v.same;
  forward = λ e. omega (arith, v.forward e);
  inside = v.inside;
  sticky = v.sticky;
}
