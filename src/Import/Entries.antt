-- ===== src/Import/Entries.antt =====
-- What `wayThread` of src/main.cpp does with an entry: a way or a relation. `osmmap.select`,
-- `db.getWay` and `db.getWayCoordsMap` are parameters; progress, logging, the barrier and the
-- finalizers that the loop calls between entries are left out.
use gpsxdb.Prelude.{
  ℕ, zero, suc, Bool, true, false, ◌||◌, if◌then◌else◌, List, [], ◌∷◌, Option, none, some,
}
use gpsxdb.Prelude.Int.{ℤ, pos, negsuc}
use gpsxdb.Bytes.{Double}
use gpsxdb.Wkb.Geometry.{Point}
use gpsxdb.Wkb.Hex.{Text}
use gpsxdb.Wkb.Encode.{build_way_geom, merge_way_geoms}
use gpsxdb.Nav.{Tags, is_empty, same_text, find_tag}
use gpsxdb.Delta.{WayEntry}
use gpsxdb.Rings.{Stitched, done, ◌>>=◌}
use gpsxdb.Buffers.{Copied, Loading, Flushed, ok, ◌>>=◌ as ◌>>>◌}
use gpsxdb.Buffers.Insert.{insert_way, insert_area, insert_road, insert_relation}
use gpsxdb.Import.{is_area}
use gpsxdb.Import.Names.{
  type_text, multipolygon_text, boundary_text, route_text, road_text, highway_text,
}
use gpsxdb.Import.Multipolygon.{Member, build_multipolygon}

-- `RelationEntry`, with the roles of the members.
pub record Relation : Type 0 where
  pub id : ℤ
  pub name : Text
  pub tags : Tags
  pub members : List Member

abbrev pub has_value : Text → Text → Tags → Bool
has_value k v tags = elim (find_tag k tags) [ none ↦ false | some u ↦ same_text u v ]

abbrev pub has_tag : Text → Tags → Bool
has_tag k tags = elim (find_tag k tags) [ none ↦ false | some u ↦ true ]

unfoldable pub is_multipolygon : Tags → Bool
is_multipolygon tags =
    has_value type_text multipolygon_text tags || has_value type_text boundary_text tags

unfoldable pub is_road : Tags → Bool
is_road tags = has_value route_text road_text tags || has_tag highway_text tags

-- `-item.id`.
abbrev pub negated : ℤ → ℤ
negated (pos zero) = pos zero
negated (pos (suc n)) = negsuc n
negated (negsuc n) = pos (suc n)

-- The coordinates that are known, in the order of the references.
unfoldable pub known_points : (ℤ → Option Point) → List ℤ → List Point
known_points select [] = []
known_points select (id ∷ ids) = elim (select id) [
  | none ↦ known_points select ids
  | some p ↦ p ∷ known_points select ids
]

-- The geometries of the members that have one.
unfoldable pub member_geoms : (ℤ → Text) → List Member → List Text
member_geoms get_way [] = []
member_geoms get_way (m ∷ members) =
    if is_empty (get_way m.id)
    then member_geoms get_way members
    else get_way m.id ∷ member_geoms get_way members

module _ (copy : ℕ → Copied) (size : ℕ) (double_eq : Double → Double → Bool) (srid : ℤ) where
  unfoldable pub handle_way : (ℤ → Option Point) → Loading → WayEntry → Flushed Loading
  handle_way select s w =
      let (geog, is_closed) =
        build_way_geom double_eq srid (known_points select w.node_refs) false in
      if is_empty geog
      then ok s
      else if is_area is_closed w.tags
      then insert_area copy size s w.id w.name w.tags geog
      else insert_way copy size s w.id w.name w.tags geog

  -- A relation that is no multipolygon.
  unfoldable pub handle_lines : (ℤ → Text) → Loading → Relation → Flushed Loading
  handle_lines get_way s r =
      let geog = merge_way_geoms srid (member_geoms get_way r.members) in
      insert_relation copy size s r.id r.name r.tags geog >>> λ t.
      if is_empty geog
      then ok t
      else if is_road r.tags
      then insert_road copy size t r.id r.name r.tags geog
      else ok t

  unfoldable pub store_multipolygon : Loading → Relation → Text → Flushed Loading
  store_multipolygon s r geog =
      if is_empty geog then ok s else insert_area copy size s (negated r.id) r.name r.tags geog

  unfoldable pub handle_relation :
      (Double → Double → Bool)
      → (Double → Double → Bool)
      → (ℤ → List Point)
      → (ℤ → Text)
      → Loading
      → Relation
      → Stitched (Flushed Loading)
  handle_relation less at_most coords get_way s r =
      if is_multipolygon r.tags
      then (build_multipolygon less at_most double_eq srid coords r.members >>= λ geog.
          done (store_multipolygon s r geog))
      else done (handle_lines get_way s r)
