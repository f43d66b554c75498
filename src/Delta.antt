-- ===== src/Delta.antt =====
-- src/DeltaApplier.cpp: the changes of an OSC file, applied to the node store and to the database.
-- The helpers for geometries, which the file repeats, are in Wkb/Encode/Local.antt. Calls of the
-- database succeed; a fault of the node store ends the process. `flush` empties the buffers of the
-- inserts, which the appliers do not use.
pub mod Exclusive
pub mod Stored
pub mod Sound
mod Tests
use gpsxdb.Prelude.{
  ℕ, ◌+◌, Bool, true, false, not, ◌&&◌, ◌||◌, if◌then◌else◌, List, [], ◌∷◌, ltb, length, Option,
  none, some,
}
use gpsxdb.Prelude.Int.{ℤ}
use gpsxdb.Bytes.{Double}
use gpsxdb.Wkb.Geometry.{Point}
use gpsxdb.Wkb.Hex.{Text}
use gpsxdb.Wkb.Encode.{point_wkb, is_ring}
use gpsxdb.Wkb.Encode.Local.{build_line_wkb, merge_linestrings}
use gpsxdb.NodeStore.{Store, Access, done, segv, update, remove, select}
use gpsxdb.Nav.{
  Tags, NavDb, Kind, is_empty, same_text, find_tag, update_node, update_way, update_area,
  update_relation, update_road, delete_entity, get_way,
}
use gpsxdb.Nav.Names.{route_text, road_text, highway_text}

infixr 35 ◌>>=◌
abbrev pub ◌>>=◌ {ℓ κ} : {A : Type ℓ} {B : Type κ} → Access A → (A → Access B) → Access B
done a >>= f = f a
segv >>= f = segv

-- The columns that the readers of the files fill.
pub record NodeEntry : Type 0 where
  pub id : ℤ
  pub name : Text
  pub tags : Tags
  pub lon : Double
  pub lat : Double

pub record WayEntry : Type 0 where
  pub id : ℤ
  pub name : Text
  pub tags : Tags
  pub node_refs : List ℤ

-- The members that are ways; their roles are not read here.
pub record RelationEntry : Type 0 where
  pub id : ℤ
  pub name : Text
  pub tags : Tags
  pub way_members : List ℤ

pub data ChangeType : Type 0 where
  create modify delete : ChangeType

pub data OscChange : Type 0 where
  node_change : ChangeType → NodeEntry → OscChange
  way_change : ChangeType → WayEntry → OscChange
  relation_change : ChangeType → RelationEntry → OscChange

pub record Counters : Type 0 where
  pub created : ℕ
  pub modified : ℕ
  pub deleted : ℕ

unfoldable pub count : ChangeType → Counters → Counters
count create c = record c { created = c.created + 1 }
count modify c = record c { modified = c.modified + 1 }
count delete c = record c { deleted = c.deleted + 1 }

-- The geometries of the member ways that the database has.
unfoldable pub way_texts : NavDb → List ℤ → List Text
way_texts db [] = []
way_texts db (id ∷ ids) =
    let g = get_way db id in let rest = way_texts db ids in if is_empty g then rest else g ∷ rest

unfoldable pub build_relation_geom : ℤ → NavDb → RelationEntry → Text
build_relation_geom srid db r = merge_linestrings srid (way_texts db r.way_members)

unfoldable pub is_road : Tags → Bool
is_road tags =
    (elim (find_tag route_text tags) [ none ↦ false | some v ↦ same_text v road_text ])
    || (elim (find_tag highway_text tags) [ none ↦ false | some v ↦ true ])

-- Clear the table of the other shape, then write: the way may have been opened or closed.
unfoldable pub put_way : NavDb → WayEntry → Text → Bool → NavDb
put_way db w geom closed =
    if closed
    then update_area (delete_entity db w.id Kind.way) w.id w.name w.tags geom
    else update_way (delete_entity db w.id Kind.area) w.id w.name w.tags geom

unfoldable pub delete_way : NavDb → ℤ → NavDb
delete_way db id = delete_entity (delete_entity db id Kind.way) id Kind.area

unfoldable pub delete_relation : NavDb → ℤ → NavDb
delete_relation db id = delete_entity (delete_entity db id Kind.relation) id Kind.road

pub record Applier : Type 0 where
  pub osmmap : Store
  pub db : NavDb
  pub counters : Counters

-- `toMercator` calls PROJ, and the doubles are compared by the host.
module _ (to_mercator : Double → Double → Point) (double_eq : Double → Double → Bool)
    (srid : ℤ) where
  -- The coordinates of the references that the store knows.
  pub known_coords : Store → List ℤ → Access (List Point)
  known_coords s [] = done []
  known_coords s (ref ∷ refs) = select s ref >>= λ pt.
      known_coords s refs >>= λ rest. done (elim pt [ none ↦ rest | some p ↦ p ∷ rest ])

  -- The text and `is_closed`.
  pub line_geom : List Point → Text × Bool
  line_geom coords =
      if ltb (length coords) 2
      then ([], false)
      else (build_line_wkb srid coords (is_ring double_eq coords), is_ring double_eq coords)

  unfoldable pub create_node : Applier → NodeEntry → Access Applier
  create_node a n =
      let p = to_mercator n.lon n.lat in
      update a.osmmap n.id p >>= λ s. done (elim n.tags [
        | [] ↦ record a { osmmap = s }
        | t ∷ ts ↦ record a {
          osmmap = s;
          db = update_node a.db n.id n.name p.0 p.1 n.tags (point_wkb srid n.lon n.lat);
        }
      ])

  unfoldable pub modify_node : Applier → NodeEntry → Access Applier
  modify_node a n =
      let p = to_mercator n.lon n.lat in
      update a.osmmap n.id p >>= λ s. done (record a {
        osmmap = s;
        db = update_node a.db n.id n.name p.0 p.1 n.tags (point_wkb srid n.lon n.lat);
      })

  unfoldable pub delete_node : Applier → ℤ → Access Applier
  delete_node a id = remove a.osmmap id >>= λ s.
      done (record a { osmmap = s; db = delete_entity a.db id Kind.node })

  unfoldable pub upsert_way : Applier → WayEntry → Access Applier
  upsert_way a w = known_coords a.osmmap w.node_refs >>= λ coords.
      (let (geom, closed) = line_geom coords in
        done (if is_empty geom then a else record a { db = put_way a.db w geom closed }))

  unfoldable pub upsert_relation : Applier → RelationEntry → Applier
  upsert_relation a r =
      let geom = build_relation_geom srid a.db r in
      let db = update_relation a.db r.id r.name r.tags geom in
      if is_road r.tags && not (is_empty geom)
      then record a { db = update_road db r.id r.name r.tags geom }
      else record a { db = delete_entity db r.id Kind.road }

  -- `apply` before it counts.
  pub dispatch : Applier → OscChange → Access Applier
  dispatch a (node_change create n) = create_node a n
  dispatch a (node_change modify n) = modify_node a n
  dispatch a (node_change delete n) = delete_node a n.id
  dispatch a (way_change create w) = upsert_way a w
  dispatch a (way_change modify w) = upsert_way a w
  dispatch a (way_change delete w) = done (record a { db = delete_way a.db w.id })
  dispatch a (relation_change create r) = done (upsert_relation a r)
  dispatch a (relation_change modify r) = done (upsert_relation a r)
  dispatch a (relation_change delete r) = done (record a { db = delete_relation a.db r.id })

  unfoldable pub type_of : OscChange → ChangeType
  type_of (node_change t n) = t
  type_of (way_change t w) = t
  type_of (relation_change t r) = t

  unfoldable pub apply : Applier → OscChange → Access Applier
  apply a c = dispatch a c >>= λ b. done (record b { counters = count (type_of c) b.counters })

  unfoldable pub apply_all : Applier → List OscChange → Access Applier
  apply_all a [] = done a
  apply_all a (c ∷ cs) = apply a c >>= λ b. apply_all b cs
