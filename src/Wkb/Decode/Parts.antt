-- ===== src/Wkb/Decode/Parts.antt =====
-- The readers of `decodeOne`, each on the bytes that its encoder writes.
use gpsxdb.Prelude.{
  ℕ, ◌+◌, ◌/◌, ◌%◌, ◌^◌, ◌<◌, ◌≡◌, refl, true, List, [], ◌∷◌, ◌++◌, arith, length, All,
  append_assoc, ◌==◌,
}
use gpsxdb.Prelude.Int.{ℤ}
use gpsxdb.Bytes.{Bytes, write_le32, write_le}
use gpsxdb.Bytes.Signed.{to_u32, IsI32, to_i32-to_u32, to_u32-lt}
use gpsxdb.Wkb.Geometry.{Point, Outcome, found, ◌>>=◌}
use gpsxdb.Wkb.Cursor.{Cursor, u8, u32, f64}
use gpsxdb.Wkb.Cursor.Laws.{At, u8-At, u32-At, f64-At}
use gpsxdb.Wkb.Decode.{read_point, repeat, counted, read_srid, read_header}
use gpsxdb.Wkb.Encode.{write_points, write_wkb_ring, write_wkb_rings, write_header}

-- The run found `a`, and `rest` lies ahead of the cursor that it left.
pub record Reads {A : Type 0} (r : Outcome (A × Cursor)) (a : A) (rest : Bytes) : Type 0 where
  pub after : Cursor
  pub run : r ≡ found (a, after)
  pub at : At after rest

-- Coordinates are 64-bit patterns.
abbrev pub IsPoint : Point → Type 0
IsPoint p = (p.0 < 2 ^ 64) × (p.1 < 2 ^ 64)

-- A ring or line whose length fits its 32-bit count.
abbrev pub IsRing : List Point → Type 0
IsRing ps = (length ps < 2 ^ 32) × All IsPoint ps

module _ {A B : Type 0} where
  pub Reads-bind :
      {r : Outcome (A × Cursor)} (f : A × Cursor → Outcome (B × Cursor)) {a : A} {b : B}
      {rest rest' : Bytes}
      → Reads r a rest
      → ((c : Cursor) → At c rest → Reads (f (a, c)) b rest')
      → Reads (r >>= f) b rest'
  Reads-bind f h k =
      let next = k h.after h.at in
      record { after = next.after; run = rw h.run next.run; at = next.at }

  pub Reads-wrap :
      {r : Outcome (A × Cursor)} (f : A → B) {a : A} {rest : Bytes}
      → Reads r a rest
      → Reads (r >>= λ (x, c). found (f x, c)) (f a) rest
  Reads-wrap f h = record { after = h.after; run = rw h.run; at = h.at }

-- `◌++◌` nested to the left, as an encoder leaves it, and to the right, as a reader takes it.
pub At-assoc : (c : Cursor) (xs ys zs : Bytes) → At c ((xs ++ ys) ++ zs) → At c (xs ++ (ys ++ zs))
At-assoc c xs ys zs h = rw append_assoc at h

pub read_point-Reads :
    (c : Cursor) (p : Point) (rest : Bytes)
    → IsPoint p
    → At c (write_le 8 p.0 ++ (write_le 8 p.1 ++ rest))
    → Reads (read_point c) p rest
unfolding read_point
read_point-Reads c (x, y) rest h at =
    let (ex, at₁) = f64-At c x _ h.0 at in
    let (ey, at₂) = f64-At (f64 c).1 y rest h.1 at₁ in
    record { after = (f64 (f64 c).1).1; run = rw (at₂.fine, ex, ey); at = at₂ }

repeat_points-Reads :
    (ps : List Point) (c : Cursor) (rest : Bytes)
    → All IsPoint ps
    → At c (write_points ps ++ rest)
    → Reads (repeat read_point (length ps) c) ps rest
unfolding repeat write_points
repeat_points-Reads [] c rest h at = record { after = c; run = refl; at = at }
repeat_points-Reads (p ∷ ps) c rest h at =
    Reads-bind _ (read_point-Reads c p (write_points ps ++ rest) h.0 (simp append_assoc at at))
      (λ c₁ at₁. Reads-wrap (λ xs. p ∷ xs) (repeat_points-Reads ps c₁ rest h.1 at₁))

-- A count that fits 32 bits, and that many items.
module _ {A : Type 0} (read : Cursor → Outcome (A × Cursor)) where
  pub counted-Reads :
      (n : ℕ) (xs : List A) (c : Cursor) (body rest : Bytes)
      → n < 2 ^ 32
      → At c (write_le32 (n % 2 ^ 32) ++ body)
      → ((d : Cursor) → At d body → Reads (repeat read n d) xs rest)
      → Reads (counted read c) xs rest
  unfolding counted
  counted-Reads n xs c body rest small at k =
      let e : n % 2 ^ 32 ≡ n = omega arith in
      let (en, at₁) = u32-At c n body small (rw e at at) in rw (at₁.fine, en) (k (u32 c).1 at₁)

pub ring-Reads :
    (ps : List Point) (c : Cursor) (rest : Bytes)
    → IsRing ps
    → At c (write_wkb_ring ps ++ rest)
    → Reads (counted read_point c) ps rest
unfolding write_wkb_ring
ring-Reads ps c rest h at =
    counted-Reads read_point (length ps) ps c (write_points ps ++ rest) rest h.0
      (At-assoc c (write_le32 (length ps % 2 ^ 32)) (write_points ps) rest at)
      (λ d at₁. repeat_points-Reads ps d rest h.1 at₁)

pub repeat_rings-Reads :
    (rs : List (List Point)) (c : Cursor) (rest : Bytes)
    → All IsRing rs
    → At c (write_wkb_rings rs ++ rest)
    → Reads (repeat (counted read_point) (length rs) c) rs rest
unfolding repeat write_wkb_rings
repeat_rings-Reads [] c rest h at = record { after = c; run = refl; at = at }
repeat_rings-Reads (r ∷ rs) c rest h at =
    Reads-bind _
      (ring-Reads r c (write_wkb_rings rs ++ rest) h.0
        (At-assoc c (write_wkb_ring r) (write_wkb_rings rs) rest at))
      (λ c₁ at₁. Reads-wrap (λ xs. r ∷ xs) (repeat_rings-Reads rs c₁ rest h.1 at₁))

-- A header with the SRID flag, whatever the type.
pub read_header-Reads :
    (srid : ℤ) (type : ℕ) (c : Cursor) (body : Bytes)
    → IsI32 srid
    → type < 2 ^ 16
    → At c (write_header srid type body)
    → Reads (read_header c) (record { type = type; srid = srid }) body
unfolding read_header read_srid write_header
read_header-Reads srid type c body z t at =
    let raw = 0x20000000 + type in
    let (e₁, at₁) = u8-At c 1 _ at in
    let c₁ = (u8 c).1 in
    let (e₂, at₂) = u32-At c₁ raw _ (omega arith) at₁ in
    let c₂ = (u32 c₁).1 in
    let flagged : (raw / 2 ^ 29 % 2 == 1) ≡ true = ground arith in
    let masked : raw % 2 ^ 16 ≡ type = omega arith in
    let (e₃, at₃) = u32-At c₂ (to_u32 srid) body (to_u32-lt srid z) at₂ in
    record {
      after = (u32 c₂).1;
      run = rw (at₁.fine, e₁, at₂.fine, e₂, flagged, at₃.fine, e₃, to_i32-to_u32 srid z, masked);
      at = at₃;
    }
