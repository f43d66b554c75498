-- ===== src/Delta/Sound.antt =====
-- A whole OSC file applied: every change ends, and the store and the tables stay sound.
use gpsxdb.Prelude.{
  ◌≡◌, ◌≤◌, ◌<◌, refl, Bool, true, Bool-cases, inl, inr, arith, List, [], ◌∷◌, All, ◌^◌, ◌&&◌, not,
}
use gpsxdb.Prelude.Int.{ℤ, pos, negsuc, ltb_ℤ}
use gpsxdb.Bytes.{Double}
use gpsxdb.Bytes.Signed.{IsI64}
use gpsxdb.Wkb.Geometry.{Point}
use gpsxdb.Wkb.Encode.{point_wkb}
use gpsxdb.NodeStore.{Store, Coord, Access, done, update, remove, max_sane_node_id}
use gpsxdb.NodeStore.Laws.{IsValid}
use gpsxdb.NodeStore.Writes.{update-Writes, remove-Writes}
use gpsxdb.Nav.{NavDb, Kind, is_empty, update_node, delete_entity}
use gpsxdb.Nav.Consistent.{call, call-AreConsistent, node_call, delete_call}
use gpsxdb.Delta.{
  NodeEntry, WayEntry, RelationEntry, OscChange, node_change, way_change, relation_change, create,
  modify, delete, Applier, line_geom, create_node, modify_node, delete_node, upsert_way,
  upsert_relation, dispatch, apply, apply_all, is_road, build_relation_geom, put_way, type_of,
  count,
}
use gpsxdb.Delta.Exclusive.{
  IsSound, put_way-IsSound, delete_way-IsSound, relation_road-IsSound, relation_only-IsSound,
  delete_relation-IsSound,
}
use gpsxdb.Delta.Stored.{held_coords, known_coords-held_coords}

-- Below the sanity ceiling of the store, or negative: such ids the store ignores.
abbrev pub IsNodeId : ℤ → Type 0
IsNodeId (pos n) = n ≤ max_sane_node_id
IsNodeId (negsuc n) = n < 2 ^ 63

abbrev pub IsPlausible : OscChange → Type 0
IsPlausible (node_change t n) = IsNodeId n.id
IsPlausible (way_change t w) = All IsI64 w.node_refs
IsPlausible (relation_change t r) = Unit

abbrev pub Ends : {A : Type 0} → Access A → (A → Type 0) → Type 0
Ends {A = A} r P = (t : A) × (r ≡ done t) × P t

update-IsValid :
    (s : Store) (id : ℤ) (p : Coord) → IsValid s → IsNodeId id → Ends (update s id p) IsValid
update-IsValid s (pos n) p v h = let (t, run, w) = update-Writes s v n h p in (t, run, w.valid)
update-IsValid s (negsuc n) p v h =
    (s, (let e : ltb_ℤ (negsuc n) (pos 0) ≡ true = ground arith in unfold update in rw e), v)

remove-IsValid : (s : Store) (id : ℤ) → IsValid s → IsNodeId id → Ends (remove s id) IsValid
remove-IsValid s (pos n) v h =
    let (t, run, w) = remove-Writes s v n (omega (arith, h)) in (t, run, w.valid)
remove-IsValid s (negsuc n) v h =
    (s, (let e : ltb_ℤ (negsuc n) (pos 0) ≡ true = ground arith in unfold remove in rw e), v)

pub record IsSoundApplier (a : Applier) : Type 0 where
  pub store : IsValid a.osmmap
  pub tables : IsSound a.db

pub update_node-IsSound :
    (db : NavDb) (n : NodeEntry) (p : Point) (srid : ℤ)
    → IsSound db
    → IsSound (update_node db n.id n.name p.0 p.1 n.tags (point_wkb srid n.lon n.lat))
unfolding call update_node
update_node-IsSound db n p srid h = record {
  consistent =
      call-AreConsistent (node_call n.id n.name p.0 p.1 n.tags (point_wkb srid n.lon n.lat)) db
        h.consistent;
  exclusive = h.exclusive;
  roads = h.roads;
}

pub delete_node-IsSound :
    (db : NavDb) (id : ℤ) → IsSound db → IsSound (delete_entity db id Kind.node)
unfolding call delete_entity
delete_node-IsSound db id h = record {
  consistent = call-AreConsistent (delete_call id Kind.node) db h.consistent;
  exclusive = h.exclusive;
  roads = h.roads;
}

module _ (to_mercator : Double → Double → Point) (double_eq : Double → Double → Bool) (srid : ℤ)
    (a : Applier) (h : IsSoundApplier a) where
  create_node-IsSoundApplier :
      (n : NodeEntry)
      → IsNodeId n.id
      → Ends (create_node to_mercator double_eq srid a n) IsSoundApplier
  unfolding create_node
  create_node-IsSoundApplier n ok =
      let p = to_mercator n.lon n.lat in
      let (s, run, v) = update-IsValid a.osmmap n.id p h.store ok in
      elim n.tags
        as (λ tags.
          Ends (create_node to_mercator double_eq srid a (record n { tags = tags }))
            IsSoundApplier) [
              | [] ↦ (record a { osmmap = s }, rw run, record { store = v; tables = h.tables })
              | t ∷ ts ↦ (
                record a {
                  osmmap = s;
                  db = update_node a.db n.id n.name p.0 p.1 (t ∷ ts) (point_wkb srid n.lon n.lat);
                },
                rw run,
                record {
                  store = v;
                  tables = update_node-IsSound a.db (record n { tags = t ∷ ts }) p srid h.tables;
                },
              )
            ]

  modify_node-IsSoundApplier :
      (n : NodeEntry)
      → IsNodeId n.id
      → Ends (modify_node to_mercator double_eq srid a n) IsSoundApplier
  unfolding modify_node
  modify_node-IsSoundApplier n ok =
      let p = to_mercator n.lon n.lat in
      let (s, run, v) = update-IsValid a.osmmap n.id p h.store ok in
      (
        record a {
          osmmap = s;
          db = update_node a.db n.id n.name p.0 p.1 n.tags (point_wkb srid n.lon n.lat);
        },
        rw run,
        record { store = v; tables = update_node-IsSound a.db n p srid h.tables },
      )

  delete_node-IsSoundApplier :
      (id : ℤ) → IsNodeId id → Ends (delete_node to_mercator double_eq srid a id) IsSoundApplier
  unfolding delete_node
  delete_node-IsSoundApplier id ok =
      let (s, run, v) = remove-IsValid a.osmmap id h.store ok in
      (
        record a { osmmap = s; db = delete_entity a.db id Kind.node },
        rw run,
        record { store = v; tables = delete_node-IsSound a.db id h.tables },
      )

  upsert_way-IsSoundApplier :
      (w : WayEntry)
      → All IsI64 w.node_refs
      → Ends (upsert_way to_mercator double_eq srid a w) IsSoundApplier
  unfolding upsert_way
  upsert_way-IsSoundApplier w ids =
      let ps = held_coords a.osmmap w.node_refs in
      let (geom, closed) = line_geom to_mercator double_eq srid ps in
      elim (Bool-cases (is_empty geom)) [
        | inl e ↦ (
          a,
          rw (
            known_coords-held_coords to_mercator double_eq srid a.osmmap w.node_refs h.store ids,
            e,
          ),
          h,
        )
        | inr e ↦ (
          record a { db = put_way a.db w geom closed },
          rw (
            known_coords-held_coords to_mercator double_eq srid a.osmmap w.node_refs h.store ids,
            e,
          ),
          record { store = h.store; tables = put_way-IsSound a.db h.tables w geom closed },
        )
      ]

  upsert_relation-IsSoundApplier :
      (r : RelationEntry) → IsSoundApplier (upsert_relation to_mercator double_eq srid a r)
  unfolding upsert_relation
  upsert_relation-IsSoundApplier r =
      let geom = build_relation_geom srid a.db r in
      elim (Bool-cases (is_road r.tags && not (is_empty geom))) [
        | inl e ↦ rw e (record {
          store = h.store;
          tables = relation_road-IsSound a.db h.tables r.id r.name r.tags geom;
        })
        | inr e ↦ rw e (record {
          store = h.store;
          tables = relation_only-IsSound a.db h.tables r.id r.name r.tags geom;
        })
      ]

  dispatch-IsSoundApplier :
      (c : OscChange)
      → IsPlausible c
      → Ends (dispatch to_mercator double_eq srid a c) IsSoundApplier
  unfolding dispatch
  dispatch-IsSoundApplier (node_change create n) ok = create_node-IsSoundApplier n ok
  dispatch-IsSoundApplier (node_change modify n) ok = modify_node-IsSoundApplier n ok
  dispatch-IsSoundApplier (node_change delete n) ok = delete_node-IsSoundApplier n.id ok
  dispatch-IsSoundApplier (way_change create w) ok = upsert_way-IsSoundApplier w ok
  dispatch-IsSoundApplier (way_change modify w) ok = upsert_way-IsSoundApplier w ok
  dispatch-IsSoundApplier (way_change delete w) ok =
      (_, refl, record { store = h.store; tables = delete_way-IsSound a.db h.tables w.id })
  dispatch-IsSoundApplier (relation_change create r) ok =
      (_, refl, upsert_relation-IsSoundApplier r)
  dispatch-IsSoundApplier (relation_change modify r) ok =
      (_, refl, upsert_relation-IsSoundApplier r)
  dispatch-IsSoundApplier (relation_change delete r) ok =
      (_, refl, record { store = h.store; tables = delete_relation-IsSound a.db h.tables r.id })

module _ (to_mercator : Double → Double → Point) (double_eq : Double → Double → Bool)
    (srid : ℤ) where
  -- Where the store and the tables are sound, every file of plausible changes is applied to its end,
  -- without a fault of the node store, and they are sound after it: in each table an entity has a row
  -- exactly when it has tags, no id is a way and an area at once, and each road is a relation.
  pub apply_all-IsSoundApplier :
      (cs : List OscChange) (a : Applier)
      → All IsPlausible cs
      → IsSoundApplier a
      → Ends (apply_all to_mercator double_eq srid a cs) IsSoundApplier
  unfolding apply_all apply
  apply_all-IsSoundApplier [] a ok h = (a, refl, h)
  apply_all-IsSoundApplier (c ∷ cs) a ok h =
      let (b, run, k) = dispatch-IsSoundApplier to_mercator double_eq srid a h c ok.0 in
      let counted : Applier = record b {
        counters = count (type_of to_mercator double_eq srid c) b.counters;
      } in
      let (e, run', l) =
        apply_all-IsSoundApplier cs counted ok.1 (record { store = k.store; tables = k.tables }) in
      (e, rw run run', l)
