-- ===== src/Delta/Tests.antt =====
-- The theorems of the appliers at concrete inputs.
use gpsxdb.Prelude.{
  ◌+◌, ◌%◌, ◌≡◌, refl, arith, [], ◌∷◌, List, none, true, false, Bool, if◌then◌else◌, ◌==◌,
}
use gpsxdb.Prelude.Int.{pos}
use gpsxdb.Bytes.{Double}
use gpsxdb.Bytes.Bits.{bit, bit-zero}
use gpsxdb.Bytes.Signed.{to_size}
use gpsxdb.Wkb.Geometry.{Point, found}
use gpsxdb.Wkb.Hex.{hex_to_bytes}
use gpsxdb.Wkb.Encode.{is_ring}
use gpsxdb.Wkb.Decode.{decode}
use gpsxdb.Wkb.Decode.RoundTrip.{with_srid, way_shape}
use gpsxdb.NodeStore.{Store, done, bitmap_get}
use gpsxdb.NodeStore.Laws.{IsValid}
use gpsxdb.Nav.{Table, NavDb, Tags, has_surviving_tag, get_way}
use gpsxdb.Nav.Names.{highway_text, road_text}
use gpsxdb.Delta.{
  NodeEntry, WayEntry, OscChange, node_change, way_change, relation_change, create, modify, delete,
  Applier, upsert_way, apply_all,
}
use gpsxdb.Delta.Exclusive.{IsSound}
use gpsxdb.Delta.Stored.{held_coords, decode-upsert_way}
use gpsxdb.Delta.Sound.{Ends, IsSoundApplier, apply_all-IsSoundApplier}

abbrev planar : Double → Double → Point
planar lon lat = (lon, lat)

abbrev same_bits : Double → Double → Bool
same_bits a b = a == b

-- Eleven records, of which the first two are in use.
abbrev two_nodes : Store
two_nodes = record {
  size = 176;
  records = λ i. (i, i + 5);
  bm_size = 2;
  bm = λ i. if i == 0 then 3 else 0;
  max_id = pos 10;
}

two_nodes-IsValid : IsValid two_nodes
unfolding bitmap_get
two_nodes-IsValid = record {
  small = omega arith;
  tight = omega arith;
  bytes = λ i. ground arith;
  held = λ j e. ground (arith, bit-zero (j % 8) (omega arith));
}

abbrev no_rows : Table
no_rows = record { row = λ _. none; tags = λ _. [] }

abbrev no_db : NavDb
no_db = record {
  nodes = no_rows;
  ways = no_rows;
  areas = no_rows;
  roads = no_rows;
  relations = no_rows;
}

no_db-IsSound : IsSound no_db
no_db-IsSound = record {
  consistent = ((λ _. refl), (λ _. refl), (λ _. refl), (λ _. refl), (λ _. refl));
  exclusive = λ _. refl;
  roads = λ id h. h;
}

abbrev applier : Applier
applier = record {
  osmmap = two_nodes;
  db = no_db;
  counters = record { created = 0; modified = 0; deleted = 0 };
}

abbrev street_tags : Tags
street_tags = (highway_text, road_text) ∷ []

abbrev street : WayEntry
street = record { id = pos 7; name = road_text; tags = street_tags; node_refs = pos 0 ∷ pos 1 ∷ [] }

street-kept : has_surviving_tag false street_tags ≡ true
unfolding has_surviving_tag gpsxdb.Nav.survives_among gpsxdb.Nav.is_dropped
    gpsxdb.Nav.is_excluded_tag_key gpsxdb.Nav.among gpsxdb.Nav.same_text gpsxdb.Nav.starts_with_any
    gpsxdb.Nav.starts_with gpsxdb.Nav.Sanitize.sanitize_tag gpsxdb.Nav.Sanitize.sanitize_utf8
    gpsxdb.Nav.Sanitize.sanitize_from gpsxdb.Nav.Sanitize.cut_from gpsxdb.Nav.Sanitize.is_kept
    gpsxdb.Nav.Sanitize.lead_length gpsxdb.Nav.Sanitize.continues gpsxdb.Nav.Sanitize.cut_length
street-kept = refl

decode-upsert_way_example :
    let ps = held_coords two_nodes (pos 0 ∷ pos 1 ∷ []) in
    (b : Applier) × (upsert_way planar same_bits (pos 3857) applier street ≡ done b)
    × (decode (hex_to_bytes (get_way b.db (pos 7)))
        ≡ found (with_srid (pos 3857) (way_shape (is_ring same_bits ps) ps)))
decode-upsert_way_example =
    decode-upsert_way planar same_bits (pos 3857) applier street (omega arith) two_nodes-IsValid
      (omega arith) street-kept (unfold bitmap_get bit to_size in omega arith)
      (unfold bitmap_get bit to_size in omega arith)

abbrev node_entry : NodeEntry
node_entry = record { id = pos 4; name = []; tags = street_tags; lon = 17; lat = 42 }

abbrev session : List OscChange
session =
    node_change create node_entry
    ∷ way_change modify street
    ∷ relation_change create
        (record { id = pos 9; name = []; tags = street_tags; way_members = pos 7 ∷ [] })
    ∷ node_change delete node_entry
    ∷ []

apply_all-IsSoundApplier_example :
    Ends (apply_all planar same_bits (pos 3857) applier session) IsSoundApplier
apply_all-IsSoundApplier_example =
    apply_all-IsSoundApplier planar same_bits (pos 3857) session applier (omega arith)
      (record { store = two_nodes-IsValid; tables = no_db-IsSound })
