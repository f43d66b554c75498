-- ===== src/Import/Stored.antt =====
-- Where the import stores a way and a multipolygon, and with which geometry.
use gpsxdb.Prelude.{
  ◌⊎◌, ◌↔◌, inl, inr, Bool-cases, ℕ, suc, ◌≤◌, ◌<◌, ◌^◌, ◌≡◌, refl, Bool, true, false, ltb,
  if◌then◌else◌, List, length, Option, none, All, arith,
}
use gpsxdb.Prelude.Int.{ℤ}
use gpsxdb.Bytes.{Double}
use gpsxdb.Bytes.Signed.{IsI32}
use gpsxdb.Wkb.Geometry.{Point, found}
use gpsxdb.Wkb.Hex.{Text, to_hex, hex_to_bytes}
use gpsxdb.Wkb.Encode.{
  write_header, write_wkb_polygon, line_bytes, way_bytes, is_ring, build_way_geom,
}
use gpsxdb.Wkb.Decode.{decode}
use gpsxdb.Wkb.Decode.Parts.{IsRing}
use gpsxdb.Wkb.Decode.RoundTrip.{with_srid, way_shape, decode-build_way_geom}
use gpsxdb.Nav.{Tags, Kind, is_empty}
use gpsxdb.Delta.{WayEntry}
use gpsxdb.Rings.{Ring, done, stitch_rings}
use gpsxdb.Rings.Size.{total}
use gpsxdb.Buffers.{Copied, Loading, ok}
use gpsxdb.Buffers.Insert.{Insert, insert, insert_area, insert_way}
use gpsxdb.Import.{is_area}
use gpsxdb.Import.Multipolygon.{segments}
use gpsxdb.Import.Areas.{IsArea, is_area_iff}
use gpsxdb.Import.Holes.{stored, IsOrder}
use gpsxdb.Import.Assembly.{IsNumber, has_none, decode-build_multipolygon}
use gpsxdb.Import.Entries.{
  Relation, known_points, is_multipolygon, negated, handle_way, store_multipolygon, handle_relation,
}

not_empty-way_bytes :
    (srid : ℤ) (closed : Bool) (ps : List Point)
    → is_empty (to_hex (way_bytes srid closed ps)) ≡ false
unfolding to_hex way_bytes line_bytes write_wkb_polygon write_header
not_empty-way_bytes srid true ps = refl
not_empty-way_bytes srid false ps = refl

not_empty-build_way_geom :
    (double_eq : Double → Double → Bool) (srid : ℤ) (ps : List Point)
    → 2 ≤ length ps
    → is_empty (build_way_geom double_eq srid ps false).0 ≡ false
unfolding build_way_geom
not_empty-build_way_geom double_eq srid ps long =
    let enough : ltb (length ps) 2 ≡ false = ground arith in
    rw enough (not_empty-way_bytes srid (is_ring double_eq ps) ps)

empty-build_way_geom :
    (double_eq : Double → Double → Bool) (srid : ℤ) (ps : List Point)
    → length ps < 2
    → is_empty (build_way_geom double_eq srid ps false).0 ≡ true
unfolding build_way_geom
empty-build_way_geom double_eq srid ps short =
    let few : ltb (length ps) 2 ≡ true = ground arith in rw few refl

abbrev pub the_insert : Bool → ℤ → Text → Tags → Text → Insert
the_insert in_areas id name tags geog = record {
  kind = if in_areas then Kind.area else Kind.way;
  id = id;
  name = name;
  at = none;
  tags = tags;
  geog = geog;
}

module _ (copy : ℕ → Copied) (size : ℕ) (double_eq : Double → Double → Bool) (srid : ℤ) where
  by_kind :
      (s : Loading) (in_areas : Bool) (id : ℤ) (name : Text) (tags : Tags) (geog : Text)
      → (if in_areas
          then insert_area copy size s id name tags geog
          else insert_way copy size s id name tags geog)
        ≡ insert copy size s (the_insert in_areas id name tags geog)
  unfolding insert
  by_kind s true id name tags geog = refl
  by_kind s false id name tags geog = refl

  -- A way of which the node store knows fewer than two nodes is not inserted. Any other, whose points
  -- are as the encoder asks, is inserted into `areas` if its tags and whether it is a ring say so by
  -- the rules of `IsArea`, and into `ways` otherwise. Its geometry does not depend on the tags: it is decoded to a polygon if the way is a
  -- ring, and to a line if it is not.
  pub handle_way-insert :
      (select : ℤ → Option Point) (s : Loading) (w : WayEntry)
      → IsI32 srid
      → IsRing (known_points select w.node_refs)
      → let ps = known_points select w.node_refs in
        let closed = is_ring double_eq ps in
        ((length ps < 2) × (handle_way copy size double_eq srid select s w ≡ ok s))
        ⊎ ((in_areas : Bool) × (hex : Text) × (handle_way copy size double_eq srid select s w
              ≡ insert copy size s (the_insert in_areas w.id w.name w.tags hex))
            × ((in_areas ≡ true) ↔ IsArea closed w.tags)
            × (decode (hex_to_bytes hex) ≡ found (with_srid srid (way_shape closed ps))))
  unfolding handle_way insert
  handle_way-insert select s w z h =
      let ps = known_points select w.node_refs in
      elim (Bool-cases (ltb (length ps) 2)) [
        | inl few ↦
            inl (ground arith, rw (empty-build_way_geom double_eq srid ps (ground arith)) refl)
        | inr many ↦
            let long : 2 ≤ length ps = ground arith in
            let (e, closed) = decode-build_way_geom double_eq srid ps false z long h in
            inr (
              is_area (is_ring double_eq ps) w.tags,
              (build_way_geom double_eq srid ps false).0,
              rw (not_empty-build_way_geom double_eq srid ps long, closed)
                  (by_kind s (is_area (is_ring double_eq ps) w.tags) w.id w.name w.tags
                    (build_way_geom double_eq srid ps false).0),
              is_area_iff (is_ring double_eq ps) w.tags,
              rw closed at e,
            )
      ]

  -- A multipolygon or a boundary, under the conditions of `buildMultipolygon`: the handler ends; if
  -- there is no outer ring it does nothing, and otherwise it inserts the relation into `areas` under
  -- the negated id, with a text that is decoded to the polygons of its rings.
  pub handle_relation-insert :
      (less at_most : Double → Double → Bool) (order : IsOrder double_eq less at_most)
      (coords : ℤ → List Point) (get_way : ℤ → Text) (s : Loading) (r : Relation)
      → is_multipolygon r.tags ≡ true
      → IsI32 srid
      → ((id : ℤ) → All (IsNumber double_eq) (coords id))
      → suc (total (segments coords false r.members)) < 2 ^ 32
      → suc (total (segments coords true r.members)) < 2 ^ 32
      → (outers : List Ring) × (inners : List Ring) × (hex : Text) × (stitch_rings double_eq
            (segments coords false r.members)
          ≡ done outers)
        × (stitch_rings double_eq (segments coords true r.members) ≡ done inners)
        × (decode (hex_to_bytes hex) ≡ stored at_most srid outers inners)
        × (handle_relation copy size double_eq srid less at_most coords get_way s r
            ≡ done (
                if has_none outers
                then ok s
                else insert copy size s (the_insert true (negated r.id) r.name r.tags hex)))
  unfolding handle_relation store_multipolygon insert
  handle_relation-insert less at_most order coords get_way s r e z numbers m n =
      let (outers, inners, hex, run, run', closed, closed', build, empty, decoded) =
        decode-build_multipolygon double_eq less at_most order srid coords r.members z numbers m
          n in
      (outers, inners, hex, run, run', decoded, rw (e, build, empty))
