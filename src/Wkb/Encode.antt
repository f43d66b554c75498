-- ===== src/Wkb/Encode.antt =====
-- The encoders of src/GeoUtils.cpp, and the copies that the delta appliers keep for themselves.
-- `g_srid`, set once at startup, is the parameter `srid`. Equality of doubles, which takes -0.0 and
-- 0.0 for equal and no NaN for any, is the parameter `double_eq`.
pub mod Local
pub mod Valid
pub mod Agree
use gpsxdb.Prelude.{
  ℕ, ◌+◌, ◌-◌, ◌*◌, ◌%◌, ◌^◌, Bool, false, ◌&&◌, ◌||◌, ltb, leb, ◌==◌, if◌then◌else◌, List, [], ◌∷◌,
  ◌++◌, length, get_or,
}
use gpsxdb.Prelude.Int.{ℤ}
use gpsxdb.Bytes.{Bytes, Double, write_le32, write_le}
use gpsxdb.Bytes.Signed.{to_u32}
use gpsxdb.Wkb.Geometry.{Point}
use gpsxdb.Wkb.Hex.{Text, to_hex, hex_to_bytes}

unfoldable pub write_points : List Point → Bytes
write_points [] = []
write_points ((x, y) ∷ ps) = write_le 8 x ++ (write_le 8 y ++ write_points ps)

-- What `writeWkbRing` appends to its buffer; `ring.size()` is cast to `uint32_t`.
unfoldable pub write_wkb_ring : List Point → Bytes
write_wkb_ring ring = write_le32 (length ring % 2 ^ 32) ++ write_points ring

unfoldable pub write_wkb_rings : List (List Point) → Bytes
write_wkb_rings [] = []
write_wkb_rings (r ∷ rs) = write_wkb_ring r ++ write_wkb_rings rs

-- The byte-order mark, a type code with the SRID flag, and the SRID.
unfoldable pub write_header : ℤ → ℕ → Bytes → Bytes
write_header srid type body =
    1 ∷ (write_le32 (0x20000000 + type) ++ (write_le32 (to_u32 srid) ++ body))

unfoldable pub point_bytes : ℤ → Point → Bytes
point_bytes srid (x, y) = write_header srid 1 (write_le 8 x ++ write_le 8 y)

unfoldable pub line_bytes : ℤ → List Point → Bytes
line_bytes srid ps = write_header srid 2 (write_wkb_ring ps)

-- What `writeWkbPolygon` appends to its buffer.
unfoldable pub write_wkb_polygon : ℤ → List Point → List (List Point) → Bytes
write_wkb_polygon srid outer inners =
    write_header srid 3 (
      write_le32 ((1 + length inners) % 2 ^ 32) ++ (write_wkb_ring outer ++ write_wkb_rings inners))

unfoldable pub concat : List Bytes → Bytes
concat [] = []
concat (p ∷ ps) = p ++ concat ps

-- A MultiLineString around parts that are encoded already.
unfoldable pub multi_line_bytes : ℤ → List Bytes → Bytes
multi_line_bytes srid parts =
    write_header srid 5 (write_le32 (length parts % 2 ^ 32) ++ concat parts)

-- `isLinear`: the type code, without its flag, is that of a LineString or a MultiLineString.
unfoldable pub is_linear : Bytes → Bool
is_linear b =
    if ltb (length b) 5
    then false
    else (let gtype =
          get_or b 1 0 + get_or b 2 0 * 2 ^ 8 + get_or b 3 0 * 2 ^ 16 + get_or b 4 0 * 2 ^ 24 in
        gtype % 2 ^ 16 == 2 || gtype % 2 ^ 16 == 5)

-- The loop that collects the parts.
unfoldable pub linear_parts : List Text → List Bytes
linear_parts [] = []
linear_parts (h ∷ hs) =
    if ltb 0 (length h) && is_linear (hex_to_bytes h)
    then hex_to_bytes h ∷ linear_parts hs
    else linear_parts hs

-- The empty text stands for no geometry.
unfoldable pub merged : ℤ → List Bytes → Bytes
merged srid [] = []
merged srid (p ∷ ps) = multi_line_bytes srid (p ∷ ps)

unfoldable pub point_wkb : ℤ → Double → Double → Text
point_wkb srid x y = to_hex (point_bytes srid (x, y))

unfoldable pub merge_way_geoms : ℤ → List Text → Text
merge_way_geoms srid hs = to_hex (merged srid (linear_parts hs))

-- A closed way becomes a polygon with one ring, an open one a line.
unfoldable pub way_bytes : ℤ → Bool → List Point → Bytes
way_bytes srid closed ps = if closed then write_wkb_polygon srid ps [] else line_bytes srid ps

module _ (double_eq : Double → Double → Bool) where
  -- At least four points, the first of which equals the last.
  unfoldable pub is_ring : List Point → Bool
  is_ring ps =
      let front = get_or ps 0 (0, 0) in
      let back = get_or ps (length ps - 1) (0, 0) in
      leb 4 (length ps) && (double_eq front.0 back.0 && double_eq front.1 back.1)

  -- `is_closed` is a reference: with fewer than two points the caller's value stays.
  unfoldable pub build_way_geom : ℤ → List Point → Bool → Text × Bool
  build_way_geom srid ps is_closed =
      if ltb (length ps) 2
      then ([], is_closed)
      else (to_hex (way_bytes srid (is_ring ps) ps), is_ring ps)
