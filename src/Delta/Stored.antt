-- ===== src/Delta/Stored.antt =====
-- What an upserted way leaves in the database: the coordinates that the node store holds for its
-- references.
use gpsxdb.Prelude.{
  ◌≡◌, ◌≤◌, refl, ◌∙◌, Bool, true, false, ◌&&◌, ltb, leb, Bool-cases, inl, inr, arith, List, [],
  ◌∷◌, length, All, none, some,
}
use gpsxdb.Prelude.Int.{ℤ, eqb_ℤ_refl}
use gpsxdb.Bytes.{Double}
use gpsxdb.Bytes.Signed.{to_size, IsI32, IsI64}
use gpsxdb.Wkb.Geometry.{Point, found}
use gpsxdb.Wkb.Hex.{Text, to_hex_local, hex_to_bytes}
use gpsxdb.Wkb.Encode.{is_ring, write_header}
use gpsxdb.Wkb.Encode.Local.{build_line_wkb, line_wkb_bytes}
use gpsxdb.Wkb.Encode.Agree.{build_line_wkb-build_way_geom}
use gpsxdb.Wkb.Decode.{decode}
use gpsxdb.Wkb.Decode.Parts.{IsRing}
use gpsxdb.Wkb.Decode.RoundTrip.{with_srid, way_shape, decode-build_way_geom}
use gpsxdb.NodeStore.{Store, done}
use gpsxdb.NodeStore.Laws.{IsValid, view, select-view}
use gpsxdb.Nav.{
  NavDb, Row, has_surviving_tag, is_empty, update_way, update_area, delete_entity, get_way, upsert,
  delete_row, put, geog_text,
}
use gpsxdb.Delta.{WayEntry, Applier, known_coords, line_geom, put_way, upsert_way}

-- The coordinates that the store holds, in the order of the references.
abbrev pub held_coords : Store → List ℤ → List Point
held_coords s [] = []
held_coords s (ref ∷ refs) = elim (view s (to_size ref)) [
  | none ↦ held_coords s refs
  | some p ↦ p ∷ held_coords s refs
]

get_way_area :
    (db : NavDb) (id : ℤ) (r : Row)
    → db.ways.row id ≡ none
    → db.areas.row id ≡ some r
    → get_way db id ≡ geog_text r
unfolding get_way
get_way_area db id r e e' = rw (e, e', get_way)

get_way_way :
    (db : NavDb) (id : ℤ) (r : Row) → db.ways.row id ≡ some r → get_way db id ≡ geog_text r
unfolding get_way
get_way_way db id r e = rw (e, get_way)

pub get_way-put_way :
    (db : NavDb) (w : WayEntry) (geom : Text) (closed : Bool)
    → has_surviving_tag false w.tags ≡ true
    → get_way (put_way db w geom closed) w.id ≡ geom
unfolding put_way update_way update_area delete_entity upsert delete_row put
get_way-put_way db w geom true kept =
    get_way_area (put_way db w geom true) w.id
      (record { name = w.name; geog = some geom; at = none }) (rw (eqb_ℤ_refl w.id))
      (rw (eqb_ℤ_refl w.id, kept))
    ∙ unfold geog_text in refl
get_way-put_way db w geom false kept =
    get_way_way (put_way db w geom false) w.id
      (record { name = w.name; geog = some geom; at = none }) (rw (eqb_ℤ_refl w.id, kept))
    ∙ unfold geog_text in refl

module _ (to_mercator : Double → Double → Point) (double_eq : Double → Double → Bool)
    (srid : ℤ) where
  pub known_coords-held_coords :
      (s : Store) (refs : List ℤ)
      → IsValid s
      → All IsI64 refs
      → known_coords to_mercator double_eq srid s refs ≡ done (held_coords s refs)
  unfolding known_coords
  known_coords-held_coords s [] v h = refl
  known_coords-held_coords s (ref ∷ refs) v h =
      rw (select-view s ref v h.0, known_coords-held_coords s refs v h.1)

  built_nonempty :
      (ps : List Point) (closed : Bool)
      → 2 ≤ length ps
      → is_empty (build_line_wkb srid ps closed) ≡ false
  unfolding build_line_wkb line_wkb_bytes write_header to_hex_local
  built_nonempty ps closed long =
      let enough : ltb (length ps) 2 ≡ false = ground arith in
      elim (Bool-cases (closed && leb 4 (length ps))) [
        | inl e ↦ rw (enough, e)
        | inr e ↦ rw (enough, e)
      ]

  -- Creating or modifying a way with a tag that is kept, of which the store holds two nodes or
  -- more, ends, and the geometry that `getWay` then gives is decoded to the coordinates that the
  -- store holds for the way's references, in their order: a polygon if they close a ring, a line
  -- otherwise.
  pub decode-upsert_way :
      (a : Applier) (w : WayEntry)
      → IsI32 srid
      → IsValid a.osmmap
      → All IsI64 w.node_refs
      → has_surviving_tag false w.tags ≡ true
      → 2 ≤ length (held_coords a.osmmap w.node_refs)
      → IsRing (held_coords a.osmmap w.node_refs)
      → let ps = held_coords a.osmmap w.node_refs in
        (b : Applier) × (upsert_way to_mercator double_eq srid a w ≡ done b)
        × (decode (hex_to_bytes (get_way b.db w.id))
            ≡ found (with_srid srid (way_shape (is_ring double_eq ps) ps)))
  unfolding upsert_way line_geom
  decode-upsert_way a w z v ids kept long ring =
      let ps = held_coords a.osmmap w.node_refs in
      let closed = is_ring double_eq ps in
      let geom = build_line_wkb srid ps closed in
      let enough : ltb (length ps) 2 ≡ false = ground arith in
      let b : Applier = record a { db = put_way a.db w geom closed } in
      let (back, flag) = decode-build_way_geom double_eq srid ps false z long ring in
      (
        b,
        rw (
          known_coords-held_coords a.osmmap w.node_refs v ids,
          enough,
          built_nonempty ps closed long,
        ),
        rw
            (
              get_way-put_way a.db w geom closed kept,
              build_line_wkb-build_way_geom double_eq srid ps false,
            )
            (rw flag at back),
      )
