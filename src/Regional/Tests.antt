-- ===== src/Regional/Tests.antt =====
-- The theorems of the regional applier at concrete inputs.
use gpsxdb.Prelude.{
  ◌≡◌, refl, ◌++◌, arith, [], ◌∷◌, List, none, some, true, false, Bool, ◌==◌, leb, ltb, All,
  replicate,
}
use gpsxdb.Prelude.Int.{pos, eqb_ℤ}
use gpsxdb.Bytes.{Double}
use gpsxdb.Wkb.Geometry.{Point, Polygon, found}
use gpsxdb.Wkb.Hex.{hex_to_bytes}
use gpsxdb.Wkb.Encode.{is_ring}
use gpsxdb.Wkb.Encode.Local.{build_line_wkb}
use gpsxdb.Wkb.Encode.Agree.{build_line_wkb-build_way_geom}
use gpsxdb.Wkb.Decode.{decode}
use gpsxdb.Wkb.Decode.RoundTrip.{with_srid, way_shape, decode-build_way_geom}
use gpsxdb.NodeFile.{NodeFile, select}
use gpsxdb.Nav.{Table, NavDb, is_empty}
use gpsxdb.Nav.Names.{highway_text, road_text}
use gpsxdb.Region.{Boost, Box, Entry, build}
use gpsxdb.Delta.{
  WayEntry, OscChange, node_change, way_change, relation_change, create, modify, delete,
}
use gpsxdb.Regional.{
  RegionalApplier, resolve, resolve_all, flush, in_region, build_way_geom, upsert_way, apply_all,
  find,
}
use gpsxdb.Regional.Sound.{IsKept, apply_all-IsKept}
use gpsxdb.Regional.Promoted.{resolve-upsert_way}
use gpsxdb.Regional.Stale.{resolve-apply_all}

abbrev planar : Double → Double → Point
planar lon lat = (lon, lat)

abbrev same_bits : Double → Double → Bool
same_bits a b = a == b

abbrev everywhere : Box
everywhere = record { min_corner = (0, 0); max_corner = (90, 90) }

abbrev boost : Boost
boost = record {
  le = leb;
  lt = ltb;
  envelope = λ g. everywhere;
  polygon_envelope = λ p. everywhere;
  boxes_meet = λ b c. true;
  intersects = λ g p. true;
}

abbrev triangle : Polygon
triangle = record { outer = (0, 0) ∷ (0, 90) ∷ (90, 90) ∷ (0, 0) ∷ []; inners = [] }

abbrev regions : List Entry
regions = build boost [] 0 0 90 90 (triangle ∷ []) ∷ []

-- A file with node 9.
abbrev one_node : NodeFile
one_node = record {
  base = replicate 64 0 ++ ((9 ∷ replicate 7 0) ++ ((1 ∷ replicate 7 0) ++ (2 ∷ replicate 7 0)));
  record_count = 1;
  region_name = [];
  bbox = [];
}

abbrev no_rows : Table
no_rows = record { row = λ _. none; tags = λ _. [] }

abbrev no_db : NavDb
no_db = record {
  nodes = no_rows;
  ways = no_rows;
  areas = no_rows;
  roads = no_rows;
  relations = no_rows;
}

-- Nodes 4 and 5 came with this diff.
abbrev applier : RegionalApplier
applier = record {
  node_map = one_node;
  db = no_db;
  regions = regions;
  counters = record { created = 0; modified = 0; deleted = 0 };
  overlay = [];
  pending = (pos 4, (7, 8)) ∷ (pos 5, (8, 8)) ∷ [];
  last_pending_hits = [];
}

applier-IsKept : IsKept planar same_bits (pos 3857) boost regions applier
applier-IsKept = record {
  same = refl;
  sound = record {
    consistent = ((λ _. refl), (λ _. refl), (λ _. refl), (λ _. refl), (λ _. refl));
    exclusive = λ _. refl;
    roads = λ id h. h;
  };
  regional = record {
    nodes = λ _. tt;
    ways = λ _. tt;
    areas = λ _. tt;
    roads = λ _. tt;
    relations = λ _. tt;
  };
}

abbrev street : WayEntry
street = record {
  id = pos 7;
  name = road_text;
  tags = (highway_text, road_text) ∷ [];
  node_refs = pos 4 ∷ pos 9 ∷ pos 5 ∷ [];
}

-- Node 9 moves, and goes.
abbrev session : List OscChange
session =
    way_change create street
    ∷ node_change modify (record { id = pos 9; name = []; tags = []; lon = 30; lat = 40 })
    ∷ node_change delete (record { id = pos 9; name = []; tags = []; lon = 30; lat = 40 })
    ∷ relation_change delete (record { id = pos 1; name = []; tags = []; way_members = [] })
    ∷ []

apply_all-IsKept_example :
    IsKept planar same_bits
      (pos 3857)
      boost
      regions
      (apply_all planar same_bits (pos 3857) boost applier session)
apply_all-IsKept_example =
    apply_all-IsKept planar same_bits (pos 3857) boost session regions applier applier-IsKept

one_node-held : select one_node (pos 9) ≡ some (1, 2)
unfolding select gpsxdb.NodeFile.lower_bound gpsxdb.NodeFile.read_record gpsxdb.Bytes.read_le
    gpsxdb.Bytes.Signed.to_i64 eqb_ℤ
one_node-held = refl

resolve-apply_all_example :
    resolve (apply_all planar same_bits (pos 3857) boost applier session) (pos 9)
    ≡ (some (1, 2), false)
resolve-apply_all_example =
    resolve-apply_all planar same_bits (pos 3857) boost session applier (pos 9) (1, 2) one_node-held

abbrev street_points : List Point
street_points = (7, 8) ∷ (1, 2) ∷ (8, 8) ∷ []

street-resolved : (resolve_all applier (pos 4 ∷ pos 9 ∷ pos 5 ∷ [])).0 ≡ street_points
unfolding resolve_all resolve find select gpsxdb.NodeFile.lower_bound gpsxdb.NodeFile.read_record
    gpsxdb.Bytes.read_le gpsxdb.Bytes.Signed.to_i64 eqb_ℤ
street-resolved = refl

street-built :
    (build_way_geom planar same_bits (pos 3857) boost applier street).0
    ≡ build_line_wkb (pos 3857) street_points (is_ring same_bits street_points)
unfolding build_way_geom
street-built = rw street-resolved

street-decoded :
    decode
      (hex_to_bytes (build_line_wkb (pos 3857) street_points (is_ring same_bits street_points)))
    ≡ found (with_srid (pos 3857) (way_shape (is_ring same_bits street_points) street_points))
street-decoded =
    let (back, flag) =
      decode-build_way_geom same_bits (pos 3857) street_points false (omega arith) (omega arith)
        (omega arith) in
    rw (build_line_wkb-build_way_geom same_bits (pos 3857) street_points false) (rw flag at back)

street-nonempty :
    is_empty (build_line_wkb (pos 3857) street_points (is_ring same_bits street_points)) ≡ false
unfolding build_line_wkb gpsxdb.Wkb.Encode.Local.line_wkb_bytes is_ring
    gpsxdb.Wkb.Encode.write_header gpsxdb.Wkb.Hex.to_hex_local
street-nonempty = refl

street-inside :
    in_region planar same_bits
      (pos 3857)
      boost
      regions
      (build_line_wkb (pos 3857) street_points (is_ring same_bits street_points))
    ≡ true
unfolding in_region
street-inside =
    rw (street-nonempty, street-decoded)
      (unfold is_ring build gpsxdb.Region.matches_any gpsxdb.Region.matches
          gpsxdb.Region.matches_box gpsxdb.Region.meets_bounds gpsxdb.Region.ranges_overlap
          gpsxdb.Region.any_hit gpsxdb.Region.query gpsxdb.Region.insert_all in
        refl)

resolve-upsert_way_example :
    All
      (λ id.
        (resolve (flush (upsert_way planar same_bits (pos 3857) boost applier street)) id).0
        ≡ (resolve applier id).0)
      (pos 4 ∷ pos 9 ∷ pos 5 ∷ [])
resolve-upsert_way_example =
    resolve-upsert_way planar same_bits (pos 3857) boost applier street
      (rw street-built street-nonempty) (rw street-built street-inside)
