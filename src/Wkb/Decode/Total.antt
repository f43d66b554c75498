-- ===== src/Wkb/Decode/Total.antt =====
-- The fuel of `decode` suffices on every buffer, and no reader leaves the buffer.
use mathlib.Core.Logic.{◌≢◌}
use gpsxdb.Prelude.{
  ℕ, zero, suc, ◌+◌, ◌<◌, ◌≤◌, ◌≡◌, refl, ap, Bool, true, false, ◌∷◌, arith, length, if◌then◌else◌,
  Bool-cases, inl, inr, ◌==◌, ◌^◌, ◌/◌, ◌%◌, ◌||◌, not,
}
use gpsxdb.Prelude.Int.{ℤ}
use gpsxdb.Bytes.{Bytes}
use gpsxdb.Wkb.Geometry.{
  Geom, point, multi_line_string, multi_polygon, Decoded, Outcome, found, nullopt, out_of_fuel,
  ◌>>=◌, line_string, polygon,
}
use gpsxdb.Wkb.Cursor.{Cursor, start, u8, u32, f64}
use gpsxdb.Wkb.Cursor.Moves.{
  Moves, IsInside, u8-Moves, u32-Moves, f64-Moves, Moves-refl, Moves-trans, Moves-weaken,
}
use gpsxdb.Wkb.Decode.{
  read_point, repeat, counted, as_line_string, as_polygon, read_srid, read_header, read_body,
  decode_one, decode,
}

-- The reader did not run out of fuel, and what it found left a cursor that has not failed and
-- stands in the buffer, `m` bytes or more after `c`.
pub data Good {A : Type 0} (c : Cursor) (m : ℕ) : Outcome (A × Cursor) → Type 0 where
  reads : {a : A} {c' : Cursor} → Moves c m c' → c'.failed ≡ false → Good c m (found (a, c'))
  rejects : Good c m nullopt

-- `r` is good at every cursor that stands at or after `c` in the same buffer.
abbrev GoodFrom : {A : Type 0} → Cursor → ℕ → (Cursor → Outcome (A × Cursor)) → Type 0
GoodFrom c m r = (c' : Cursor) → Moves c 0 c' → c'.failed ≡ false → Good c' m (r c')

module _ {A : Type 0} where
  Good-after :
      (c c' : Cursor) (m n : ℕ) {r : Outcome (A × Cursor)}
      → Moves c m c'
      → Good c' n r
      → Good c (m + n) r
  Good-after c c' m n v (reads {c' = d} w g) = reads (Moves-trans c c' d m n v w) g
  Good-after c c' m n v rejects = rejects

  Good-weaken : (c : Cursor) (m n : ℕ) {r : Outcome (A × Cursor)} → n ≤ m → Good c m r → Good c n r
  Good-weaken c m n h (reads {c' = d} w g) = reads (Moves-weaken c d m n h w) g
  Good-weaken c m n h rejects = rejects

  Good-if :
      (b : Bool) {c : Cursor} {m : ℕ} {r : Outcome (A × Cursor)}
      → (b ≡ false → Good c m r)
      → Good c m (if b then nullopt else r)
  Good-if true h = rejects
  Good-if false h = h refl

  Good-choice :
      (b : Bool) {c : Cursor} {m : ℕ} {r s : Outcome (A × Cursor)}
      → Good c m r
      → Good c m s
      → Good c m (if b then r else s)
  Good-choice true h k = h
  Good-choice false h k = k

  Good-ne-out_of_fuel :
      {c : Cursor} {m : ℕ} {r : Outcome (A × Cursor)}
      → Good c m r
      → (r >>= λ (a, _). found a) ≢ out_of_fuel
  Good-ne-out_of_fuel (reads v e) = cc
  Good-ne-out_of_fuel rejects = cc

module _ {A B : Type 0} where
  Good-bind :
      (c : Cursor) (m n : ℕ) {r : Outcome (A × Cursor)} (f : A × Cursor → Outcome (B × Cursor))
      → Good c m r
      → ((a : A) (c' : Cursor) → Moves c m c' → c'.failed ≡ false → Good c' n (f (a, c')))
      → Good c (m + n) (r >>= f)
  Good-bind c m n f (reads {a} {c'} v g) k = Good-after c c' m n v (k a c' v g)
  Good-bind c m n f rejects k = rejects

  -- A last step that only wraps what was read.
  Good-wrap :
      (c : Cursor) (m : ℕ) {r : Outcome (A × Cursor)} (f : A → B)
      → Good c m r
      → Good c m (r >>= λ (a, c'). found (f a, c'))
  Good-wrap c m f (reads v g) = reads v g
  Good-wrap c m f rejects = rejects

read_point-Good : (c : Cursor) → IsInside c → Good c 16 (read_point c)
unfolding read_point
read_point-Good c h =
    let c₁ = (f64 c).1 in
    let u = f64-Moves c h in
    Good-if (f64 c₁).1.failed
      (λ e. reads (Moves-trans c c₁ (f64 c₁).1 8 8 u (f64-Moves c₁ u.inside)) e)

module _ {A : Type 0} {read : Cursor → Outcome (A × Cursor)} where
  repeat-Good :
      (n : ℕ) (c : Cursor)
      → IsInside c
      → c.failed ≡ false
      → GoodFrom c 0 read
      → Good c 0 (repeat read n c)
  unfolding repeat
  repeat-Good zero c h e g = reads (Moves-refl c h) e
  repeat-Good (suc n) c h e g = Good-bind c 0 0 _ (g c (Moves-refl c h) e) (λ a c' v e'.
      Good-wrap c' 0 (λ xs. a ∷ xs)
        (repeat-Good n c' v.inside e' (λ d w e''. g d (Moves-trans c c' d 0 0 v w) e'')))

  counted-Good : (c : Cursor) → IsInside c → GoodFrom (u32 c).1 0 read → Good c 4 (counted read c)
  unfolding counted
  counted-Good c h g = Good-if (u32 c).1.failed (λ e.
      Good-after c (u32 c).1 4 0 (u32-Moves c h)
        (repeat-Good (u32 c).0 (u32 c).1 (u32-Moves c h).inside e g))

points-Good : (c : Cursor) → IsInside c → Good c 4 (counted read_point c)
points-Good c h =
    counted-Good c h (λ d v e. Good-weaken d 16 0 (omega arith) (read_point-Good d v.inside))

as_line_string-Good :
    (g : Geom) (z : ℤ) (c c' : Cursor)
    → Moves c 0 c'
    → c'.failed ≡ false
    → Good c 0 (as_line_string (record { geom = g; srid = z }, c'))
unfolding as_line_string
as_line_string-Good (line_string ls) z c c' v e = reads v e
as_line_string-Good _ z c c' v e = rejects

as_polygon-Good :
    (g : Geom) (z : ℤ) (c c' : Cursor)
    → Moves c 0 c'
    → c'.failed ≡ false
    → Good c 0 (as_polygon (record { geom = g; srid = z }, c'))
unfolding as_polygon
as_polygon-Good (polygon p) z c c' v e = reads v e
as_polygon-Good _ z c c' v e = rejects

module _ (c : Cursor) (r : Outcome (Decoded × Cursor)) (h : Good c 0 r) where
  line_part-Good : Good c 0 (r >>= as_line_string)
  line_part-Good =
      Good-bind c 0 0 as_line_string h
        (λ d c' v e. as_line_string-Good d.geom d.srid c' c' (Moves-refl c' v.inside) e)

  polygon_part-Good : Good c 0 (r >>= as_polygon)
  polygon_part-Good =
      Good-bind c 0 0 as_polygon h
        (λ d c' v e. as_polygon-Good d.geom d.srid c' c' (Moves-refl c' v.inside) e)

read_srid-Good :
    (raw_type : ℕ) (c : Cursor) → IsInside c → c.failed ≡ false → Good c 0 (read_srid raw_type c)
unfolding read_srid
read_srid-Good raw_type c h e = elim (Bool-cases (raw_type / 2 ^ 29 % 2 == 1)) [
  | inl t ↦ rw t (
      Good-if (u32 c).1.failed
        (λ e'. reads (Moves-weaken c (u32 c).1 4 0 (omega arith) (u32-Moves c h)) e'))
  | inr t ↦ rw t (reads (Moves-refl c h) e)
]

read_header-Good : (c : Cursor) → IsInside c → Good c 5 (read_header c)
unfolding read_header
read_header-Good c h =
    let c₁ = (u8 c).1 in
    let c₂ = (u32 c₁).1 in
    let u = u8-Moves c h in
    let v = Moves-trans c c₁ c₂ 1 4 u (u32-Moves c₁ u.inside) in
    Good-if (c₁.failed || not ((u8 c).0 == 1)) (λ _.
      Good-if c₂.failed
        (λ e. Good-after c c₂ 5 0 v (Good-wrap c₂ 0 _ (read_srid-Good (u32 c₁).0 c₂ v.inside e))))

read_body-Good :
    (sub : Cursor → Outcome (Decoded × Cursor)) (type : ℕ) (c : Cursor)
    → IsInside c
    → GoodFrom c 0 sub
    → Good c 0 (read_body sub type c)
unfolding read_body
read_body-Good sub type c h g =
    Good-choice (type == 1)
      (Good-wrap c 0 point (Good-weaken c 16 0 (omega arith) (read_point-Good c h)))
      (Good-choice (type == 2)
        (Good-wrap c 0 line_string (Good-weaken c 4 0 (omega arith) (points-Good c h)))
        (Good-choice (type == 3)
          (Good-wrap c 0 _ (
            loose (
              counted-Good c h
                (λ d v e. Good-weaken d 4 0 (omega arith) (points-Good d v.inside)))))
          (Good-choice (type == 5)
            (Good-wrap c 0 multi_line_string (
              loose
                (counted-Good c h (λ d v e. line_part-Good d (sub d) (g d (from_count d v) e)))))
            (Good-choice (type == 6)
              (Good-wrap c 0 multi_polygon (
                loose (
                  counted-Good c h
                    (λ d v e. polygon_part-Good d (sub d) (g d (from_count d v) e)))))
              rejects))))
  where
    loose : {A : Type 0} {r : Outcome (A × Cursor)} → Good c 4 r → Good c 0 r
    loose = Good-weaken c 4 0 (omega arith)

    from_count : (d : Cursor) → Moves (u32 c).1 0 d → Moves c 0 d
    from_count d v =
        Moves-weaken c d 4 0 (omega arith) (Moves-trans c (u32 c).1 d 4 0 (u32-Moves c h) v)

decode_one-Good :
    (fuel : ℕ) (c : Cursor)
    → IsInside c
    → length c.bytes < c.pos + fuel
    → Good c 5 (decode_one fuel c)
unfolding decode_one
decode_one-Good zero c h f = absurd (omega arith)
decode_one-Good (suc fuel) c h f = Good-bind c 5 0 _ (read_header-Good c h) (λ hd c₁ v e.
    Good-wrap c₁ 0 _ (
      read_body-Good (decode_one fuel) hd.type c₁ v.inside (λ d w e'.
        Good-weaken d 5 0 (omega arith) (
          decode_one-Good fuel d w.inside
            (omega (arith, ap length w.same, ap length v.same, v.forward e, w.forward e'))))))

-- Decoding any buffer ends, with a geometry or with `nullopt`: the recursion into nested parts is
-- never deeper than the fuel that `decode` takes from the buffer's length.
pub decode-ne-out_of_fuel : (bs : Bytes) → decode bs ≢ out_of_fuel
unfolding decode
decode-ne-out_of_fuel bs = Good-ne-out_of_fuel (
    decode_one-Good (suc (length bs)) (start bs) (unfold start in omega arith)
      (unfold start in omega arith))
