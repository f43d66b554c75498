-- ===== src/Wkb/Decode.antt =====
-- `decodeOne` and `decode` of src/WkbDecode.cpp. `decodeOne` calls itself for the parts of a
-- MultiLineString or MultiPolygon, as deep as the headers in the buffer nest, so it takes fuel.
pub mod Total
pub mod Parts
pub mod RoundTrip
pub mod Merge
pub mod Polygons
pub mod Nested
use gpsxdb.Prelude.{
  ℕ, zero, suc, ◌+◌, ◌/◌, ◌%◌, ◌^◌, Bool, true, false, not, ◌||◌, ◌==◌, if◌then◌else◌, List, [],
  ◌∷◌, length,
}
use gpsxdb.Prelude.Int.{ℤ, pos}
use gpsxdb.Bytes.{Bytes}
use gpsxdb.Bytes.Signed.{to_i32}
use gpsxdb.Wkb.Geometry.{
  Point, LineString, Polygon, Geom, point, line_string, polygon, multi_line_string, multi_polygon,
  Decoded, Outcome, found, nullopt, out_of_fuel, ◌>>=◌,
}
use gpsxdb.Wkb.Cursor.{Cursor, start, u8, u32, f64}

-- One round of the point loops: two doubles, then the test of `c.ok()`.
pub read_point : Cursor → Outcome (Point × Cursor)
read_point c =
    let (x, c₁) = f64 c in let (y, c₂) = f64 c₁ in if c₂.failed then nullopt else found ((x, y), c₂)

-- `for (i = 0; i < n; ++i)` over a reader that may return from the function.
pub repeat : {A : Type 0} → (Cursor → Outcome (A × Cursor)) → ℕ → Cursor → Outcome (List A × Cursor)
repeat read zero c = found ([], c)
repeat read (suc n) c = do (x, c₁) ← read c; (xs, c₂) ← repeat read n c₁; found (x ∷ xs, c₂)

-- A `u32` count, the test of `c.ok()`, and that many rounds.
pub counted : {A : Type 0} → (Cursor → Outcome (A × Cursor)) → Cursor → Outcome (List A × Cursor)
counted read c = let (n, c₁) = u32 c in if c₁.failed then nullopt else repeat read n c₁

-- Ring 0 is `poly.outer()`, the others go to the end of `poly.inners()`.
pub polygon_of_rings : List (List Point) → Polygon
polygon_of_rings [] = record { outer = []; inners = [] }
polygon_of_rings (r ∷ rs) = record { outer = r; inners = rs }

-- `std::get_if<LineString>`, `std::get_if<Polygon>` on a decoded part.
pub as_line_string : Decoded × Cursor → Outcome (LineString × Cursor)
as_line_string (d, c) = elim d.geom [ line_string ls ↦ found (ls, c) | _ ↦ nullopt ]

pub as_polygon : Decoded × Cursor → Outcome (Polygon × Cursor)
as_polygon (d, c) = elim d.geom [ polygon p ↦ found (p, c) | _ ↦ nullopt ]

-- The header's type and SRID. The flag 0x20000000 says that an SRID follows.
pub read_srid : ℕ → Cursor → Outcome (ℤ × Cursor)
read_srid raw_type c =
    if raw_type / 2 ^ 29 % 2 == 1
    then (let (s, c₁) = u32 c in if c₁.failed then nullopt else found (to_i32 s, c₁))
    else found (pos 0, c)

pub record Header : Type 0 where
  pub type : ℕ
  pub srid : ℤ

pub read_header : Cursor → Outcome (Header × Cursor)
read_header c =
    let (byte_order, c₁) = u8 c in
    if c₁.failed || not (byte_order == 1)
    then nullopt
    else (let (raw_type, c₂) = u32 c₁ in
        if c₂.failed then nullopt else do
          (srid, c₃) ← read_srid raw_type c₂
          found (record { type = raw_type % 2 ^ 16; srid = srid }, c₃))

-- The `switch`; `sub` decodes a part.
pub read_body : (Cursor → Outcome (Decoded × Cursor)) → ℕ → Cursor → Outcome (Geom × Cursor)
read_body sub type c =
    if type == 1
    then (do (p, c₁) ← read_point c; found (point p, c₁))
    else if type == 2
    then (do (ls, c₁) ← counted read_point c; found (line_string ls, c₁))
    else if type == 3
    then (do
      (rings, c₁) ← counted (counted read_point) c
      found (polygon (polygon_of_rings rings), c₁))
    else if type == 5
    then (do
      (parts, c₁) ← counted (λ c. sub c >>= as_line_string) c
      found (multi_line_string parts, c₁))
    else if type == 6
    then (do (parts, c₁) ← counted (λ c. sub c >>= as_polygon) c; found (multi_polygon parts, c₁))
    else nullopt

pub decode_one : ℕ → Cursor → Outcome (Decoded × Cursor)
decode_one zero c = out_of_fuel
decode_one (suc fuel) c = do
  (h, c₁) ← read_header c
  (g, c₂) ← read_body (decode_one fuel) h.type c₁
  found (record { geom = g; srid = h.srid }, c₂)

-- A part's header takes at least five bytes, so the buffer's length bounds the depth.
pub decode : Bytes → Outcome Decoded
decode bs = do (d, _) ← decode_one (suc (length bs)) (start bs); found d
