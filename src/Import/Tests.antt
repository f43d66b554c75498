-- ===== src/Import/Tests.antt =====
-- Two members that make one outer ring, and a hole; a roundabout; the relation of these members.
use gpsxdb.Prelude.{
  ◌⊎◌, ◌↔◌, ℕ, zero, suc, ◌<◌, ◌^◌, ◌≡◌, refl, Bool, true, false, ltb, leb, ◌==◌, if◌then◌else◌,
  List, [], ◌∷◌, length, All, Option, none, some, arith,
}
use gpsxdb.Prelude.Int.{ℤ, pos, negsuc}
use gpsxdb.Bytes.{Double}
use gpsxdb.Wkb.Geometry.{Point, found}
use gpsxdb.Wkb.Hex.{Text, hex_to_bytes}
use gpsxdb.Wkb.Encode.{is_ring}
use gpsxdb.Wkb.Decode.{decode}
use gpsxdb.Wkb.Decode.Parts.{IsRing}
use gpsxdb.Wkb.Decode.RoundTrip.{with_srid, way_shape}
use gpsxdb.Nav.{is_empty, same_text, find_tag, among}
use gpsxdb.Delta.{WayEntry}
use gpsxdb.Rings.{Ring, done, same_point, stitch_rings}
use gpsxdb.Rings.Sound.{IsClosedRing}
use gpsxdb.Rings.Size.{total}
use gpsxdb.Buffers.{Copied, committed, ok, empty_loading}
use gpsxdb.Buffers.Insert.{insert}
use gpsxdb.Import.{is_area, implies_area, any_key, any_value}
use gpsxdb.Import.Names.{inner_text, highway_text, road_text, type_text, multipolygon_text}
use gpsxdb.Import.Multipolygon.{Member, segments, build_multipolygon}
use gpsxdb.Import.Areas.{IsArea}
use gpsxdb.Import.Holes.{stored, IsOrder}
use gpsxdb.Import.Assembly.{IsNumber, has_none, decode-build_multipolygon}
use gpsxdb.Import.Entries.{
  Relation, known_points, is_multipolygon, negated, handle_way, handle_relation,
}
use gpsxdb.Import.Stored.{the_insert, handle_way-insert, handle_relation-insert}

abbrev eq_bits : Double → Double → Bool
eq_bits x y = x == y

bits-IsOrder : IsOrder eq_bits ltb leb
bits-IsOrder = record {
  less-at_most = λ x y h. ground arith;
  at_most_trans = λ x y z h k. ground arith;
  not_less = λ x y h k l. ground arith;
}

abbrev way_coords : ℤ → List Point
way_coords (pos zero) = (0, 0) ∷ (0, 9) ∷ (9, 9) ∷ []
way_coords (pos (suc zero)) = (0, 0) ∷ (9, 0) ∷ (9, 9) ∷ []
way_coords (pos (suc (suc n))) = (2, 2) ∷ (2, 3) ∷ (3, 3) ∷ (2, 2) ∷ []
way_coords (negsuc n) = []

abbrev three_members : List Member
three_members =
    record { id = pos 0; role = [] }
    ∷ record { id = pos 2; role = inner_text }
    ∷ record { id = pos 1; role = [] }
    ∷ []

number : (x y : Double) → x < 2 ^ 64 → y < 2 ^ 64 → IsNumber eq_bits (x, y)
unfolding same_point
number x y h k =
    let e : (x == x) ≡ true = ground arith in
    let f : (y == y) ≡ true = ground arith in ((h, k), rw (e, f))

way_coords_numbers : (id : ℤ) → All (IsNumber eq_bits) (way_coords id)
way_coords_numbers (pos zero) = (
  number 0 0 (omega arith) (omega arith),
  (number 0 9 (omega arith) (omega arith), (number 9 9 (omega arith) (omega arith), tt)),
)
way_coords_numbers (pos (suc zero)) = (
  number 0 0 (omega arith) (omega arith),
  (number 9 0 (omega arith) (omega arith), (number 9 9 (omega arith) (omega arith), tt)),
)
way_coords_numbers (pos (suc (suc n))) = (
  number 2 2 (omega arith) (omega arith),
  (
    number 2 3 (omega arith) (omega arith),
    (number 3 3 (omega arith) (omega arith), (number 2 2 (omega arith) (omega arith), tt)),
  ),
)
way_coords_numbers (negsuc n) = tt

few_outer : suc (total (segments way_coords false three_members)) < 2 ^ 32
unfolding segments same_text
few_outer = omega arith

few_inner : suc (total (segments way_coords true three_members)) < 2 ^ 32
unfolding segments same_text
few_inner = omega arith

decode-build_multipolygon_example :
    (outers : List Ring) × (inners : List Ring) × (hex : Text) × (stitch_rings eq_bits
        (segments way_coords false three_members)
      ≡ done outers)
    × (stitch_rings eq_bits (segments way_coords true three_members) ≡ done inners)
    × All (IsClosedRing (IsNumber eq_bits) eq_bits) outers
    × All (IsClosedRing (IsNumber eq_bits) eq_bits) inners
    × (build_multipolygon ltb leb eq_bits (pos 3857) way_coords three_members ≡ done hex)
    × (is_empty hex ≡ has_none outers)
    × (decode (hex_to_bytes hex) ≡ stored leb (pos 3857) outers inners)
decode-build_multipolygon_example =
    decode-build_multipolygon eq_bits ltb leb bits-IsOrder (pos 3857) way_coords three_members
      (omega arith) way_coords_numbers few_outer few_inner

abbrev always : ℕ → Copied
always n = committed

abbrev ring_nodes : ℤ → Option Point
ring_nodes (pos n) = some (if n == 2 then (0, 9) else if n == 3 then (9, 9) else (0, 0))
ring_nodes (negsuc n) = none

-- A closed way with a linear tag, one reference of which is not known.
abbrev roundabout : WayEntry
roundabout = record {
  id = pos 50;
  name = [];
  tags = (highway_text, road_text) ∷ [];
  node_refs = pos 1 ∷ pos 2 ∷ negsuc 0 ∷ pos 3 ∷ pos 1 ∷ [];
}

roundabout-IsRing : IsRing (known_points ring_nodes roundabout.node_refs)
unfolding known_points
roundabout-IsRing = (
  omega arith,
  (
    (omega arith, omega arith),
    ((omega arith, omega arith), ((omega arith, omega arith), ((omega arith, omega arith), tt))),
  ),
)

handle_way-insert_example :
    let ps = known_points ring_nodes roundabout.node_refs in
    let closed = is_ring eq_bits ps in
    let handled = handle_way always 1 eq_bits (pos 3857) ring_nodes empty_loading roundabout in
    ((length ps < 2) × (handled ≡ ok empty_loading))
    ⊎ ((in_areas : Bool) × (hex : Text) × (handled
          ≡ insert always 1 empty_loading
              (the_insert in_areas roundabout.id roundabout.name roundabout.tags hex))
        × ((in_areas ≡ true) ↔ IsArea closed roundabout.tags)
        × (decode (hex_to_bytes hex) ≡ found (with_srid (pos 3857) (way_shape closed ps))))
handle_way-insert_example =
    handle_way-insert always 1 eq_bits (pos 3857) ring_nodes empty_loading roundabout (omega arith)
      roundabout-IsRing

-- It is no area.
roundabout_area : is_area true roundabout.tags ≡ false
unfolding is_area implies_area any_key any_value find_tag among same_text
roundabout_area = refl

abbrev lake : Relation
lake = record {
  id = pos 60;
  name = [];
  tags = (type_text, multipolygon_text) ∷ [];
  members = three_members;
}

lake_is : is_multipolygon lake.tags ≡ true
unfolding is_multipolygon find_tag same_text
lake_is = refl

handle_relation-insert_example :
    (outers : List Ring) × (inners : List Ring) × (hex : Text) × (stitch_rings eq_bits
        (segments way_coords false three_members)
      ≡ done outers)
    × (stitch_rings eq_bits (segments way_coords true three_members) ≡ done inners)
    × (decode (hex_to_bytes hex) ≡ stored leb (pos 3857) outers inners)
    × (handle_relation always 1 eq_bits (pos 3857) ltb leb way_coords (λ id. []) empty_loading lake
        ≡ done (
            if has_none outers
            then ok empty_loading
            else insert always 1 empty_loading
                (the_insert true (negated lake.id) lake.name lake.tags hex)))
handle_relation-insert_example =
    handle_relation-insert always 1 eq_bits (pos 3857) ltb leb bits-IsOrder way_coords (λ id. [])
      empty_loading lake lake_is (omega arith) way_coords_numbers few_outer few_inner
