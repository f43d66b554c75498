-- ===== src/Wkb/Tests.antt =====
-- Runs of the encoders and the decoder, and the theorems at concrete inputs.
use mathlib.Core.Logic.{◌≢◌}
use gpsxdb.Prelude.{◌≡◌, refl, Bool, false, ◌==◌, List, [], ◌∷◌, ◌++◌, arith}
use gpsxdb.Prelude.Int.{pos}
use gpsxdb.Bytes.{Bytes, Double}
use gpsxdb.Bytes.Signed.{to_u32}
use gpsxdb.Wkb.Geometry.{Point, found, nullopt, out_of_fuel, point, polygon}
use gpsxdb.Wkb.Hex.{hex_to_bytes, to_hex}
use gpsxdb.Wkb.Encode.{point_wkb, write_wkb_polygon, build_way_geom, merge_way_geoms, is_ring}
use gpsxdb.Wkb.Encode.Local.{build_line_wkb, merge_linestrings}
use gpsxdb.Wkb.Encode.Agree.{merge_linestrings-merge_way_geoms, build_line_wkb-build_way_geom}
use gpsxdb.Wkb.Decode.{decode}
use gpsxdb.Wkb.Decode.Total.{decode-ne-out_of_fuel}
use gpsxdb.Wkb.Decode.RoundTrip.{
  with_srid, way_shape, decode-point_wkb, decode-write_wkb_polygon, decode-build_way_geom,
}
use gpsxdb.Wkb.Decode.Merge.{way_hexes, open_lines, lines_shape, decode-merge_way_geoms}
use gpsxdb.Wkb.Decode.Nested.{nested_hex, decode-merge_nested}

abbrev one_point : Point
one_point = (0x3ff0000000000000, 0x4000000000000000)

abbrev square : List Point
square = (0, 0) ∷ (0, 1) ∷ (1, 1) ∷ (0, 0) ∷ []

abbrev street : List Point
street = one_point ∷ (7, 8) ∷ []

abbrev same_bits : Double → Double → Bool
same_bits a b = a == b

point_text :
    point_wkb (pos 3857) 0x3ff0000000000000 0
    ≡ to_hex (
        1 ∷ 1 ∷ 0 ∷ 0 ∷ 0x20 ∷ 0x11 ∷ 0xf ∷ 0 ∷ 0 ∷ 0 ∷ 0 ∷ 0 ∷ 0 ∷ 0 ∷ 0 ∷ 0xf0 ∷ 0x3f ∷ 0 ∷ 0 ∷ 0
        ∷ 0 ∷ 0 ∷ 0 ∷ 0 ∷ 0 ∷ [])
unfolding point_wkb gpsxdb.Wkb.Encode.point_bytes gpsxdb.Wkb.Encode.write_header
    gpsxdb.Bytes.write_le gpsxdb.Bytes.write_le32 to_u32
point_text = refl

decode-ne-out_of_fuel_example : decode (1 ∷ 5 ∷ 0 ∷ 0 ∷ 0x20 ∷ []) ≢ out_of_fuel
decode-ne-out_of_fuel_example = decode-ne-out_of_fuel (1 ∷ 5 ∷ 0 ∷ 0 ∷ 0x20 ∷ [])

decode-point_wkb_example :
    decode (hex_to_bytes (point_wkb (pos 4326) 17 42))
    ≡ found (with_srid (pos 4326) (point (17, 42)))
decode-point_wkb_example =
    decode-point_wkb (pos 4326) 17 42 (omega arith) (omega arith) (omega arith)

decode-write_wkb_polygon_example :
    decode (write_wkb_polygon (pos 3857) square (square ∷ []) ++ 9 ∷ [])
    ≡ found (with_srid (pos 3857) (polygon (record { outer = square; inners = square ∷ [] })))
decode-write_wkb_polygon_example =
    decode-write_wkb_polygon (pos 3857) square (square ∷ []) (9 ∷ []) (omega arith) (omega arith)
      (omega arith) (omega arith)

decode-build_way_geom_example :
    let (hex, closed) = build_way_geom same_bits (pos 3857) square false in
    (decode (hex_to_bytes hex) ≡ found (with_srid (pos 3857) (way_shape closed square)))
    × (closed ≡ is_ring same_bits square)
decode-build_way_geom_example =
    decode-build_way_geom same_bits (pos 3857) square false (omega arith) (omega arith)
      (omega arith)

decode-merge_way_geoms_example :
    decode (
      hex_to_bytes
        (merge_way_geoms (pos 3857) (way_hexes same_bits (pos 3857) (street ∷ square ∷ []))))
    ≡ lines_shape (pos 3857) (open_lines same_bits (street ∷ square ∷ []))
decode-merge_way_geoms_example =
    decode-merge_way_geoms same_bits (pos 3857) (street ∷ square ∷ []) (omega arith) (omega arith)
      (omega arith)

decode-merge_nested_example :
    decode (hex_to_bytes (merge_way_geoms (pos 3857) (nested_hex (pos 3857) (street ∷ []) ∷ [])))
    ≡ nullopt
decode-merge_nested_example =
    decode-merge_nested (pos 3857) (street ∷ []) [] (omega arith) (omega arith) (omega arith)
      (omega arith)

merge_linestrings-merge_way_geoms_example :
    hex_to_bytes (merge_linestrings (pos 3857) (way_hexes same_bits (pos 3857) (street ∷ [])))
    ≡ hex_to_bytes (merge_way_geoms (pos 3857) (way_hexes same_bits (pos 3857) (street ∷ [])))
merge_linestrings-merge_way_geoms_example =
    merge_linestrings-merge_way_geoms (pos 3857) (way_hexes same_bits (pos 3857) (street ∷ []))

build_line_wkb-build_way_geom_example :
    hex_to_bytes (build_line_wkb (pos 3857) square (is_ring same_bits square))
    ≡ hex_to_bytes (build_way_geom same_bits (pos 3857) square false).0
build_line_wkb-build_way_geom_example =
    build_line_wkb-build_way_geom same_bits (pos 3857) square false
