-- ===== src/Regional/Stale.antt =====
-- Nodes that the region's file holds: what becomes of their changes.
use gpsxdb.Prelude.{◌≡◌, refl, ◌∙◌, ap, Bool, false, Bool-cases, inl, inr, List, [], ◌∷◌, some}
use gpsxdb.Prelude.Int.{ℤ}
use gpsxdb.Bytes.{Double}
use gpsxdb.Wkb.Geometry.{Point}
use gpsxdb.NodeFile.{select}
use gpsxdb.Nav.{is_empty}
use gpsxdb.Region.{Boost}
use gpsxdb.Delta.{
  NodeEntry, WayEntry, RelationEntry, OscChange, node_change, way_change, relation_change, create,
  modify, delete, is_road, build_relation_geom,
}
use gpsxdb.Regional.{
  RegionalApplier, resolve, node_in_region, in_region, create_node, modify_node, delete_node,
  upsert_way, upsert_relation, build_way_geom, apply, apply_all,
}

module _ (to_mercator : Double → Double → Point) (double_eq : Double → Double → Bool) (srid : ℤ)
    (boost : Boost) (a : RegionalApplier) where
  -- No change touches the node file.
  create_node-node_map :
      (n : NodeEntry) → (create_node to_mercator double_eq srid boost a n).node_map ≡ a.node_map
  unfolding create_node
  create_node-node_map n =
      elim n.tags
        as (λ tags.
          (create_node to_mercator double_eq srid boost a (record n { tags = tags })).node_map
          ≡ a.node_map) [
            | [] ↦ refl
            | t ∷ ts ↦
                elim (Bool-cases (
                  node_in_region to_mercator double_eq srid boost a.regions
                    (to_mercator n.lon n.lat))) [ inl e ↦ rw e | inr e ↦ rw e ]
          ]

  modify_node-node_map :
      (n : NodeEntry) → (modify_node to_mercator double_eq srid boost a n).node_map ≡ a.node_map
  unfolding modify_node
  modify_node-node_map n =
      elim (Bool-cases
        (node_in_region to_mercator double_eq srid boost a.regions (to_mercator n.lon n.lat))) [
          | inl e ↦ rw e
          | inr e ↦ rw e
        ]

  upsert_way-node_map :
      (w : WayEntry) → (upsert_way to_mercator double_eq srid boost a w).node_map ≡ a.node_map
  unfolding upsert_way
  upsert_way-node_map w =
      let geom = (build_way_geom to_mercator double_eq srid boost a w).0 in
      elim (Bool-cases (is_empty geom)) [
        | inl e ↦ rw e
        | inr e ↦
            rw e (elim (Bool-cases (in_region to_mercator double_eq srid boost a.regions geom)) [
              | inl k ↦ rw k
              | inr k ↦ rw k
            ])
      ]

  upsert_relation-node_map :
      (r : RelationEntry)
      → (upsert_relation to_mercator double_eq srid boost a r).node_map ≡ a.node_map
  unfolding upsert_relation
  upsert_relation-node_map r =
      elim (Bool-cases
        (in_region to_mercator double_eq srid boost a.regions (build_relation_geom srid a.db r))) [
          | inl e ↦ rw e (elim (Bool-cases (is_road r.tags)) [ inl k ↦ rw k | inr k ↦ rw k ])
          | inr e ↦ rw e
        ]

  apply-node_map :
      (c : OscChange) → (apply to_mercator double_eq srid boost a c).node_map ≡ a.node_map
  unfolding apply delete_node
  apply-node_map (node_change create n) = create_node-node_map n
  apply-node_map (node_change modify n) = modify_node-node_map n
  apply-node_map (node_change delete n) = refl
  apply-node_map (way_change create w) = upsert_way-node_map w
  apply-node_map (way_change modify w) = upsert_way-node_map w
  apply-node_map (way_change delete w) = refl
  apply-node_map (relation_change create r) = upsert_relation-node_map r
  apply-node_map (relation_change modify r) = upsert_relation-node_map r
  apply-node_map (relation_change delete r) = refl

module _ (to_mercator : Double → Double → Point) (double_eq : Double → Double → Bool) (srid : ℤ)
    (boost : Boost) where
  apply_all-node_map :
      (cs : List OscChange) (a : RegionalApplier)
      → (apply_all to_mercator double_eq srid boost a cs).node_map ≡ a.node_map
  unfolding apply_all
  apply_all-node_map [] a = refl
  apply_all-node_map (c ∷ cs) a =
      apply_all-node_map cs (apply to_mercator double_eq srid boost a c)
      ∙ apply-node_map to_mercator double_eq srid boost a c

  -- A node that the region's node file holds resolves to the coordinates of the file, whatever
  -- changes have been applied, those that move or delete this node included.
  pub resolve-apply_all :
      (cs : List OscChange) (a : RegionalApplier) (id : ℤ) (p : Point)
      → select a.node_map id ≡ some p
      → resolve (apply_all to_mercator double_eq srid boost a cs) id ≡ (some p, false)
  unfolding resolve
  resolve-apply_all cs a id p h =
      let kept : select (apply_all to_mercator double_eq srid boost a cs).node_map id ≡ some p =
        ap (λ m. select m id) (apply_all-node_map cs a) ∙ h in
      rw (kept, resolve)
