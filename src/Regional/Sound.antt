-- ===== src/Regional/Sound.antt =====
-- A whole OSC file applied to the database of a region.
use gpsxdb.Prelude.{◌≡◌, Bool, true, Bool-cases, inl, inr, List, [], ◌∷◌}
use gpsxdb.Prelude.Int.{ℤ}
use gpsxdb.Bytes.{Double}
use gpsxdb.Wkb.Geometry.{Point}
use gpsxdb.Wkb.Hex.{Text}
use gpsxdb.Region.{Boost, Entry}
use gpsxdb.Nav.{is_empty}
use gpsxdb.Delta.{
  NodeEntry, WayEntry, RelationEntry, OscChange, node_change, way_change, relation_change, create,
  modify, delete, is_road, build_relation_geom, delete_way, delete_relation, Counters,
}
use gpsxdb.Delta.Exclusive.{
  IsSound, put_way-IsSound, delete_way-IsSound, relation_road-IsSound, relation_only-IsSound,
  delete_relation-IsSound,
}
use gpsxdb.Delta.Sound.{update_node-IsSound, delete_node-IsSound}
use gpsxdb.Regional.{
  RegionalApplier, node_in_region, in_region, store_node, create_node, modify_node, delete_node,
  upsert_way, upsert_relation, build_way_geom, apply, apply_all,
}
use gpsxdb.Regional.Tables.{
  IsRegional, put_way-IsRegional, delete_way-IsRegional, delete_relation-IsRegional,
  delete_node-IsRegional, update_node-IsRegional, relation-IsRegional, road-IsRegional,
  delete_road-IsRegional,
}

module _ (to_mercator : Double → Double → Point) (double_eq : Double → Double → Bool) (srid : ℤ)
    (boost : Boost) where
  -- Sound tables, whose rows lie in the applier's regions.
  pub record IsKept (rs : List Entry) (a : RegionalApplier) : Type 0 where
    pub same : a.regions ≡ rs
    pub sound : IsSound a.db
    pub regional : IsRegional to_mercator double_eq srid boost rs a.db

  moved :
      (xs ys : List Entry) (g : Text)
      → xs ≡ ys
      → in_region to_mercator double_eq srid boost xs g ≡ true
      → in_region to_mercator double_eq srid boost ys g ≡ true
  moved xs ys g e h = rw e at h

  counted :
      (rs : List Entry) (b : RegionalApplier) (k : Counters)
      → IsKept rs b
      → IsKept rs (record b { counters = k })
  counted rs b k h = record { same = h.same; sound = h.sound; regional = h.regional }

  module _ (rs : List Entry) (a : RegionalApplier) (h : IsKept rs a) where
    create_node-IsKept :
        (n : NodeEntry) → IsKept rs (create_node to_mercator double_eq srid boost a n)
    unfolding create_node store_node
    create_node-IsKept n =
        let p = to_mercator n.lon n.lat in
        elim n.tags
          as (λ tags.
            IsKept rs (create_node to_mercator double_eq srid boost a (record n { tags = tags }))) [
              | [] ↦ record { same = h.same; sound = h.sound; regional = h.regional }
              | t ∷ ts ↦
                  elim (Bool-cases (node_in_region to_mercator double_eq srid boost a.regions p)) [
                    | inl e ↦ rw e (record {
                      same = h.same;
                      sound = update_node-IsSound a.db (record n { tags = t ∷ ts }) p srid h.sound;
                      regional =
                          update_node-IsRegional to_mercator double_eq srid boost rs a.db h.regional
                            (record n { tags = t ∷ ts }) p (rw h.same at e);
                    })
                    | inr e ↦
                        rw e (record { same = h.same; sound = h.sound; regional = h.regional })
                  ]
            ]

    modify_node-IsKept :
        (n : NodeEntry) → IsKept rs (modify_node to_mercator double_eq srid boost a n)
    unfolding modify_node store_node
    modify_node-IsKept n =
        let p = to_mercator n.lon n.lat in
        elim (Bool-cases (node_in_region to_mercator double_eq srid boost a.regions p)) [
          | inl e ↦ rw e (record {
            same = h.same;
            sound = update_node-IsSound a.db n p srid h.sound;
            regional =
                update_node-IsRegional to_mercator double_eq srid boost rs a.db h.regional n p
                  (rw h.same at e);
          })
          | inr e ↦ rw e (record {
            same = h.same;
            sound = delete_node-IsSound a.db n.id h.sound;
            regional =
                delete_node-IsRegional to_mercator double_eq srid boost rs a.db h.regional n.id;
          })
        ]

    delete_node-IsKept : (id : ℤ) → IsKept rs (delete_node a id)
    unfolding delete_node
    delete_node-IsKept id = record {
      same = h.same;
      sound = delete_node-IsSound a.db id h.sound;
      regional = delete_node-IsRegional to_mercator double_eq srid boost rs a.db h.regional id;
    }

    upsert_way-IsKept : (w : WayEntry) → IsKept rs (upsert_way to_mercator double_eq srid boost a w)
    unfolding upsert_way
    upsert_way-IsKept w =
        let (geom, (closed, hits)) = build_way_geom to_mercator double_eq srid boost a w in
        elim (Bool-cases (is_empty geom)) [
          | inl none_built ↦
              rw none_built (record { same = h.same; sound = h.sound; regional = h.regional })
          | inr some_built ↦
              rw some_built
                (elim (Bool-cases (in_region to_mercator double_eq srid boost a.regions geom)) [
                  | inl e ↦ rw e (record {
                    same = h.same;
                    sound = put_way-IsSound a.db h.sound w geom closed;
                    regional =
                        put_way-IsRegional to_mercator double_eq srid boost rs a.db h.regional w
                          geom closed (moved a.regions rs geom h.same e);
                  })
                  | inr e ↦ rw e (record {
                    same = h.same;
                    sound = delete_way-IsSound a.db h.sound w.id;
                    regional =
                        delete_way-IsRegional to_mercator double_eq srid boost rs a.db h.regional
                          w.id;
                  })
                ])
        ]

    delete_way-IsKept : (id : ℤ) → IsKept rs (record a { db = delete_way a.db id })
    delete_way-IsKept id = record {
      same = h.same;
      sound = delete_way-IsSound a.db h.sound id;
      regional = delete_way-IsRegional to_mercator double_eq srid boost rs a.db h.regional id;
    }

    delete_relation-IsKept : (id : ℤ) → IsKept rs (record a { db = delete_relation a.db id })
    delete_relation-IsKept id = record {
      same = h.same;
      sound = delete_relation-IsSound a.db h.sound id;
      regional = delete_relation-IsRegional to_mercator double_eq srid boost rs a.db h.regional id;
    }

    upsert_relation-IsKept :
        (r : RelationEntry) → IsKept rs (upsert_relation to_mercator double_eq srid boost a r)
    unfolding upsert_relation
    upsert_relation-IsKept r =
        let geom = build_relation_geom srid a.db r in
        elim (Bool-cases (in_region to_mercator double_eq srid boost a.regions geom)) [
          | inr e ↦ rw e (delete_relation-IsKept r.id)
          | inl e ↦
              let i : in_region to_mercator double_eq srid boost rs geom ≡ true =
                moved a.regions rs geom h.same e in
              let first =
                relation-IsRegional to_mercator double_eq srid boost rs a.db h.regional r geom i in
              rw e (elim (Bool-cases (is_road r.tags)) [
                | inl road ↦ rw road (record {
                  same = h.same;
                  sound = relation_road-IsSound a.db h.sound r.id r.name r.tags geom;
                  regional = road-IsRegional to_mercator double_eq srid boost rs _ r geom first i;
                })
                | inr road ↦ rw road (record {
                  same = h.same;
                  sound = relation_only-IsSound a.db h.sound r.id r.name r.tags geom;
                  regional =
                      delete_road-IsRegional to_mercator double_eq srid boost rs _ r.id first;
                })
              ])
        ]

    apply-IsKept : (c : OscChange) → IsKept rs (apply to_mercator double_eq srid boost a c)
    unfolding apply
    apply-IsKept (node_change create n) = counted rs _ _ (create_node-IsKept n)
    apply-IsKept (node_change modify n) = counted rs _ _ (modify_node-IsKept n)
    apply-IsKept (node_change delete n) = counted rs _ _ (delete_node-IsKept n.id)
    apply-IsKept (way_change create w) = counted rs _ _ (upsert_way-IsKept w)
    apply-IsKept (way_change modify w) = counted rs _ _ (upsert_way-IsKept w)
    apply-IsKept (way_change delete w) = counted rs _ _ (delete_way-IsKept w.id)
    apply-IsKept (relation_change create r) = counted rs _ _ (upsert_relation-IsKept r)
    apply-IsKept (relation_change modify r) = counted rs _ _ (upsert_relation-IsKept r)
    apply-IsKept (relation_change delete r) = counted rs _ _ (delete_relation-IsKept r.id)

  -- Through any changes of an OSC file, every row of every table of a region's database lies in an
  -- installed region, by its coordinates if it is a node and by its geometry if not; rows and tags
  -- go together, no id is a way and an area at once, and each road is a relation; if all this held
  -- before.
  pub apply_all-IsKept :
      (cs : List OscChange) (rs : List Entry) (a : RegionalApplier)
      → IsKept rs a
      → IsKept rs (apply_all to_mercator double_eq srid boost a cs)
  unfolding apply_all
  apply_all-IsKept [] rs a h = h
  apply_all-IsKept (c ∷ cs) rs a h =
      apply_all-IsKept cs rs (apply to_mercator double_eq srid boost a c) (apply-IsKept rs a h c)
