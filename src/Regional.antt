-- ===== src/Regional.antt =====
-- src/RegionalDeltaApplier.cpp: the changes of an OSC file, applied to the database of a region. The
-- file repeats the helpers of src/DeltaApplier.cpp. The node file is read, never written; the maps
-- `overlay_` and `pending_` are association lists.
pub mod Tables
pub mod Sound
pub mod Promoted
pub mod Stale
mod Tests
use gpsxdb.Prelude.{
  ℕ, Bool, true, false, if◌then◌else◌, List, [], ◌∷◌, ◌++◌, ltb, length, Option, none, some,
}
use gpsxdb.Prelude.Int.{ℤ, eqb_ℤ}
use gpsxdb.Bytes.{Double}
use gpsxdb.Wkb.Geometry.{Point, point, found, nullopt, out_of_fuel}
use gpsxdb.Wkb.Hex.{Text, hex_to_bytes}
use gpsxdb.Wkb.Decode.{decode}
use gpsxdb.Wkb.Encode.{point_wkb, is_ring}
use gpsxdb.Wkb.Encode.Local.{build_line_wkb}
use gpsxdb.NodeFile.{NodeFile, select}
use gpsxdb.Nav.{NavDb, Kind, is_empty, update_node, update_relation, update_road, delete_entity}
use gpsxdb.Delta.{
  NodeEntry, WayEntry, RelationEntry, OscChange, create, modify, delete, node_change, way_change,
  relation_change, Counters, count, build_relation_geom, is_road, put_way, delete_way,
  delete_relation,
}
use gpsxdb.Region.{Boost, Entry, matches_any}

abbrev pub Coords : Type 0
Coords = List (ℤ × Point)

pub find : ℤ → Coords → Option Point
find id [] = none
find id ((j, p) ∷ m) = if eqb_ℤ j id then some p else find id m

unfoldable pub erase : ℤ → Coords → Coords
erase id [] = []
erase id ((j, p) ∷ m) = if eqb_ℤ j id then erase id m else (j, p) ∷ erase id m

-- `m[id] = p`.
unfoldable pub assign : ℤ → Point → Coords → Coords
assign id p m = (id, p) ∷ erase id m

-- `emplace` leaves an entry that is there.
pub emplace : ℤ → Point → Coords → Coords
emplace id p m = elim (find id m) [ none ↦ (id, p) ∷ m | some q ↦ m ]

pub record RegionalApplier : Type 0 where
  pub node_map : NodeFile
  pub db : NavDb
  pub regions : List Entry
  pub counters : Counters
  pub overlay : Coords
  pub pending : Coords
  pub last_pending_hits : List ℤ

-- What `resolve` gives, and whether it came from `pending_`.
pub resolve : RegionalApplier → ℤ → Option Point × Bool
resolve a id = elim (select a.node_map id) [
  | some p ↦ (some p, false)
  | none ↦ elim (find id a.overlay) [
    | some p ↦ (some p, false)
    | none ↦ elim (find id a.pending) [ some p ↦ (some p, true) | none ↦ (none, false) ]
  ]
]

-- The loop of `buildWayGeom`: the coordinates, and `last_pending_hits_`.
pub resolve_all : RegionalApplier → List ℤ → List Point × List ℤ
resolve_all a [] = ([], [])
resolve_all a (ref ∷ refs) =
    let (pt, pended) = resolve a ref in
    let (coords, hits) = resolve_all a refs in
    (elim pt [ none ↦ coords | some p ↦ p ∷ coords ], if pended then ref ∷ hits else hits)

-- The loop of promotion: `overlay_` and `pending_`.
pub promote : List ℤ → Coords → Coords → Coords × Coords
promote [] overlay pending = (overlay, pending)
promote (id ∷ hits) overlay pending = elim (find id pending) [
  | none ↦ promote hits overlay pending
  | some p ↦ promote hits (emplace id p overlay) (erase id pending)
]

unfoldable pub delete_node : RegionalApplier → ℤ → RegionalApplier
delete_node a id = record a {
  pending = erase id a.pending;
  overlay = erase id a.overlay;
  db = delete_entity a.db id Kind.node;
}

-- The database's buffers are empty, see Delta.antt.
pub flush : RegionalApplier → RegionalApplier
flush a = record a { pending = [] }

module _ (to_mercator : Double → Double → Point) (double_eq : Double → Double → Bool) (srid : ℤ)
    (boost : Boost) where
  unfoldable pub node_in_region : List Entry → Point → Bool
  node_in_region regions p = matches_any boost regions (point p)

  pub in_region : List Entry → Text → Bool
  in_region regions wkb_hex =
      if is_empty wkb_hex then false else elim (decode (hex_to_bytes wkb_hex)) [
        | found d ↦ matches_any boost regions d.geom
        | nullopt ↦ false
        | out_of_fuel ↦ false
      ]

  -- The text, `is_closed`, and the hits.
  unfoldable pub build_way_geom : RegionalApplier → WayEntry → Text × (Bool × List ℤ)
  build_way_geom a w =
      let (coords, hits) = resolve_all a w.node_refs in
      if ltb (length coords) 2
      then ([], (false, hits))
      else (build_line_wkb srid coords (is_ring double_eq coords), (is_ring double_eq coords, hits))

  pub store_node : RegionalApplier → NodeEntry → NavDb
  store_node a n =
      let p = to_mercator n.lon n.lat in
      update_node a.db n.id n.name p.0 p.1 n.tags (point_wkb srid n.lon n.lat)

  unfoldable pub create_node : RegionalApplier → NodeEntry → RegionalApplier
  create_node a n =
      let p = to_mercator n.lon n.lat in
      let b : RegionalApplier = record a { pending = assign n.id p a.pending } in
      elim n.tags [
        | [] ↦ b
        | t ∷ ts ↦ if node_in_region a.regions p then record b { db = store_node a n } else b
      ]

  unfoldable pub modify_node : RegionalApplier → NodeEntry → RegionalApplier
  modify_node a n =
      let p = to_mercator n.lon n.lat in
      let b : RegionalApplier = record a { pending = assign n.id p a.pending } in
      if node_in_region a.regions p
      then record b { db = store_node a n }
      else record b { db = delete_entity a.db n.id Kind.node }

  unfoldable pub upsert_way : RegionalApplier → WayEntry → RegionalApplier
  upsert_way a w =
      let (geom, (closed, hits)) = build_way_geom a w in
      let b : RegionalApplier = record a { last_pending_hits = hits } in
      if is_empty geom
      then b
      else if in_region a.regions geom
      then (let (overlay, pending) = promote hits a.overlay a.pending in
          record b { overlay = overlay; pending = pending; db = put_way a.db w geom closed })
      else record b { db = delete_way a.db w.id }

  unfoldable pub upsert_relation : RegionalApplier → RelationEntry → RegionalApplier
  upsert_relation a r =
      let geom = build_relation_geom srid a.db r in
      if in_region a.regions geom
      then (let db = update_relation a.db r.id r.name r.tags geom in
          if is_road r.tags
          then record a { db = update_road db r.id r.name r.tags geom }
          else record a { db = delete_entity db r.id Kind.road })
      else record a { db = delete_relation a.db r.id }

  unfoldable pub apply : RegionalApplier → OscChange → RegionalApplier
  apply a (node_change create n) =
      let b = create_node a n in record b { counters = count create b.counters }
  apply a (node_change modify n) =
      let b = modify_node a n in record b { counters = count modify b.counters }
  apply a (node_change delete n) =
      let b = delete_node a n.id in record b { counters = count delete b.counters }
  apply a (way_change create w) =
      let b = upsert_way a w in record b { counters = count create b.counters }
  apply a (way_change modify w) =
      let b = upsert_way a w in record b { counters = count modify b.counters }
  apply a (way_change delete w) = record a {
    db = delete_way a.db w.id;
    counters = count delete a.counters;
  }
  apply a (relation_change create r) =
      let b = upsert_relation a r in record b { counters = count create b.counters }
  apply a (relation_change modify r) =
      let b = upsert_relation a r in record b { counters = count modify b.counters }
  apply a (relation_change delete r) = record a {
    db = delete_relation a.db r.id;
    counters = count delete a.counters;
  }

  unfoldable pub apply_all : RegionalApplier → List OscChange → RegionalApplier
  apply_all a [] = a
  apply_all a (c ∷ cs) = apply_all (apply a c) cs
