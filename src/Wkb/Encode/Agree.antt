-- ===== src/Wkb/Encode/Agree.antt =====
-- The delta appliers' copies of the encoders write the bytes that src/GeoUtils.cpp writes. Only the
-- case of the hex digits differs.
use gpsxdb.Prelude.{◌≡◌, sym, ◌∙◌, Bool, ◌&&◌, List, length, ltb, leb, arith, Bool-cases, inl, inr}
use gpsxdb.Prelude.Int.{ℤ}
use gpsxdb.Bytes.{Double}
use gpsxdb.Wkb.Geometry.{Point}
use gpsxdb.Wkb.Hex.{Text, hex_to_bytes, hex_to_bytes-to_hex, hex_to_bytes-to_hex_local}
use gpsxdb.Wkb.Encode.{linear_parts, merge_way_geoms, is_ring, build_way_geom}
use gpsxdb.Wkb.Encode.Valid.{linear_parts-IsByte, merged-IsByte, way_bytes-IsByte}
use gpsxdb.Wkb.Encode.Local.{
  build_line_wkb, merge_linestrings, line_parts-eq, line_wkb_bytes-way_bytes,
}

-- On any list of texts, well-formed or not, `mergeLinestrings` and `mergeWayGeoms` stand for the
-- same bytes.
pub merge_linestrings-merge_way_geoms :
    (srid : ℤ) (hs : List Text)
    → hex_to_bytes (merge_linestrings srid hs) ≡ hex_to_bytes (merge_way_geoms srid hs)
unfolding merge_linestrings merge_way_geoms
merge_linestrings-merge_way_geoms srid hs =
    let valid = merged-IsByte srid (linear_parts hs) (linear_parts-IsByte hs) in
    rw (line_parts-eq hs) (hex_to_bytes-to_hex_local _ valid ∙ sym (hex_to_bytes-to_hex _ valid))

is_ring-long :
    (double_eq : Double → Double → Bool) (ps : List Point)
    → is_ring double_eq ps && leb 4 (length ps) ≡ is_ring double_eq ps
unfolding is_ring
is_ring-long double_eq ps = ground arith

-- For any points, `buildLineWKB` with the appliers' test for a ring and `buildWayGeom` stand for
-- the same bytes.
pub build_line_wkb-build_way_geom :
    (double_eq : Double → Double → Bool) (srid : ℤ) (ps : List Point) (was_closed : Bool)
    → hex_to_bytes (build_line_wkb srid ps (is_ring double_eq ps))
      ≡ hex_to_bytes (build_way_geom double_eq srid ps was_closed).0
unfolding build_line_wkb build_way_geom
build_line_wkb-build_way_geom double_eq srid ps was_closed =
    let closed = is_ring double_eq ps in
    let valid = way_bytes-IsByte srid closed ps in
    elim (Bool-cases (ltb (length ps) 2)) [
      | inl short ↦ rw short
      | inr long ↦
          rw (long, line_wkb_bytes-way_bytes srid closed ps, is_ring-long double_eq ps)
            (hex_to_bytes-to_hex_local _ valid ∙ sym (hex_to_bytes-to_hex _ valid))
    ]
