-- ===== src/Regional/Promoted.antt =====
-- The promotion of nodes from `pending_` to `overlay_`: what a way of the region was built from
-- is not forgotten by a flush.
use gpsxdb.Prelude.{
  ◌≡◌, refl, sym, ◌∙◌, ap, Bool, true, false, if◌then◌else◌, Bool-cases, inl, inr, List, [], ◌∷◌,
  none, some, none-ne-some, Option-cases, All, arith, length, ltb,
}
use gpsxdb.Prelude.Int.{ℤ, eqb_ℤ, eqb_ℤ_refl, eqb_ℤ-eq}
use gpsxdb.Bytes.{Double}
use gpsxdb.Wkb.Geometry.{Point}
use gpsxdb.NodeFile.{select}
use gpsxdb.Nav.{is_empty}
use gpsxdb.Region.{Boost}
use gpsxdb.Delta.{WayEntry}
use gpsxdb.Regional.{
  Coords, find, erase, emplace, RegionalApplier, resolve, resolve_all, promote, flush, in_region,
  build_way_geom, upsert_way,
}

-- Whether `id` is among the hits.
listed : ℤ → List ℤ → Bool
listed id [] = false
listed id (h ∷ hits) = if eqb_ℤ h id then true else listed id hits

find-erase_self : (id : ℤ) (m : Coords) → find id (erase id m) ≡ none
unfolding find erase
find-erase_self id [] = refl
find-erase_self id ((j, p) ∷ m) = elim (Bool-cases (eqb_ℤ j id)) [
  | inl e ↦ rw e (find-erase_self id m)
  | inr e ↦ rw (e, find, e) (find-erase_self id m)
]

find-erase_other : (id h : ℤ) (m : Coords) → eqb_ℤ h id ≡ false → find id (erase h m) ≡ find id m
unfolding find erase
find-erase_other id h [] ne = refl
find-erase_other id h ((j, p) ∷ m) ne = elim (Bool-cases (eqb_ℤ j h)) [
  | inl e ↦
      let other : eqb_ℤ j id ≡ false = (rw (eqb_ℤ-eq j h e) ne) in
      rw (e, other) (find-erase_other id h m ne)
  | inr e ↦
      rw e (elim (Bool-cases (eqb_ℤ j id)) [
        | inl k ↦ rw k
        | inr k ↦ rw k (find-erase_other id h m ne)
      ])
]

find-emplace_other :
    (id h : ℤ) (p : Point) (m : Coords) → eqb_ℤ h id ≡ false → find id (emplace h p m) ≡ find id m
unfolding find emplace
find-emplace_other id h p m ne = elim (Option-cases (find h m)) [
  | inl e ↦ rw (e, emplace, ne)
  | inr (q, e) ↦ rw (e, emplace)
]

find-emplace_new :
    (id : ℤ) (p : Point) (m : Coords) → find id m ≡ none → find id (emplace id p m) ≡ some p
unfolding find emplace
find-emplace_new id p m e = rw (e, emplace, eqb_ℤ_refl id)

find-emplace_old :
    (id : ℤ) (p q : Point) (m : Coords) → find id m ≡ some q → find id (emplace id p m) ≡ some q
unfolding emplace
find-emplace_old id p q m e = rw (e, emplace) e

-- `overlay_` keeps what it has.
promote-old :
    (id : ℤ) (q : Point) (hits : List ℤ) (overlay pending : Coords)
    → find id overlay ≡ some q
    → find id (promote hits overlay pending).0 ≡ some q
unfolding promote
promote-old id q [] overlay pending e = e
promote-old id q (h ∷ hits) overlay pending e = elim (Option-cases (find h pending)) [
  | inl k ↦ rw (k, promote) (promote-old id q hits overlay pending e)
  | inr (p, k) ↦
      rw (k, promote)
        (promote-old id q hits (emplace h p overlay) (erase h pending)
          (elim (Bool-cases (eqb_ℤ h id)) [
            | inl same ↦ rw (eqb_ℤ-eq h id same) (find-emplace_old id p q overlay e)
            | inr other ↦ find-emplace_other id h p overlay other ∙ e
          ]))
]

-- What neither map has is not made up.
promote-none :
    (id : ℤ) (hits : List ℤ) (overlay pending : Coords)
    → find id overlay ≡ none
    → find id pending ≡ none
    → find id (promote hits overlay pending).0 ≡ none
unfolding promote
promote-none id [] overlay pending e f = e
promote-none id (h ∷ hits) overlay pending e f = elim (Option-cases (find h pending)) [
  | inl k ↦ rw (k, promote) (promote-none id hits overlay pending e f)
  | inr (p, k) ↦ elim (Bool-cases (eqb_ℤ h id)) [
    | inl same ↦
        absurd (none-ne-some p (sym f ∙ ap (λ j. find j pending) (sym (eqb_ℤ-eq h id same)) ∙ k))
    | inr other ↦
        rw (k, promote)
          (promote-none id hits (emplace h p overlay) (erase h pending)
            (find-emplace_other id h p overlay other ∙ e) (find-erase_other id h pending other ∙ f))
  ]
]

-- A hit moves over with its coordinates.
promote-hit :
    (id : ℤ) (p : Point) (hits : List ℤ) (overlay pending : Coords)
    → listed id hits ≡ true
    → find id overlay ≡ none
    → find id pending ≡ some p
    → find id (promote hits overlay pending).0 ≡ some p
unfolding promote listed
promote-hit id p [] overlay pending l e f = ground (arith, l)
promote-hit id p (h ∷ hits) overlay pending l e f = elim (Bool-cases (eqb_ℤ h id)) [
  | inl same ↦
      let there : find h pending ≡ some p = (rw (eqb_ℤ-eq h id same) f) in
      rw (there, promote)
        (promote-old id p hits (emplace h p overlay) (erase h pending)
          (rw (eqb_ℤ-eq h id same) (find-emplace_new id p overlay e)))
  | inr other ↦ elim (Option-cases (find h pending)) [
    | inl k ↦ rw (k, promote) (promote-hit id p hits overlay pending (rw other at l) e f)
    | inr (q, k) ↦
        rw (k, promote)
          (promote-hit id p hits (emplace h q overlay) (erase h pending) (rw other at l)
            (find-emplace_other id h q overlay other ∙ e) (find-erase_other id h pending other ∙ f))
  ]
]

All-map : {P Q : ℤ → Type 0} → ((id : ℤ) → P id → Q id) → (ids : List ℤ) → All P ids → All Q ids
All-map f [] h = tt
All-map f (id ∷ ids) h = (f id h.0, All-map f ids h.1)

-- The references that came from `pending_` are hits.
abbrev IsHit : RegionalApplier → List ℤ → ℤ → Type 0
IsHit a hits id = (resolve a id).1 ≡ true → listed id hits ≡ true

resolve_all-IsHit :
    (a : RegionalApplier) (refs : List ℤ) → All (IsHit a (resolve_all a refs).1) refs
unfolding resolve_all listed
resolve_all-IsHit a [] = tt
resolve_all-IsHit a (ref ∷ refs) = elim (Bool-cases (resolve a ref).1) [
  | inl e ↦ (
    λ _. rw (e, listed, eqb_ℤ_refl ref),
    All-map
        (λ id h k.
          rw (e, listed) (elim (Bool-cases (eqb_ℤ ref id)) [ inl s ↦ rw s | inr s ↦ rw s (h k) ]))
        refs (resolve_all-IsHit a refs),
  )
  | inr e ↦
      (λ k. ground (arith, e, k), All-map (λ id h l. rw e (h l)) refs (resolve_all-IsHit a refs))
]

module _ (a : RegionalApplier) (id : ℤ) where
  resolve_in_map : (p : Point) → select a.node_map id ≡ some p → resolve a id ≡ (some p, false)
  unfolding resolve
  resolve_in_map p e = rw (e, resolve)

  resolve_in_overlay :
      (q : Point)
      → select a.node_map id ≡ none
      → find id a.overlay ≡ some q
      → resolve a id ≡ (some q, false)
  unfolding resolve
  resolve_in_overlay q e k = rw (e, k, resolve)

  resolve_in_pending :
      (p : Point)
      → select a.node_map id ≡ none
      → find id a.overlay ≡ none
      → find id a.pending ≡ some p
      → resolve a id ≡ (some p, true)
  unfolding resolve
  resolve_in_pending p e k l = rw (e, k, l, resolve)

  resolve_nowhere :
      select a.node_map id ≡ none
      → find id a.overlay ≡ none
      → find id a.pending ≡ none
      → resolve a id ≡ (none, false)
  unfolding resolve
  resolve_nowhere e k l = rw (e, k, l, resolve)

-- A reference resolves after the promotion and the end of the diff as it did before.
module _ (a b : RegionalApplier) (id : ℤ) (hits : List ℤ) (map : b.node_map ≡ a.node_map)
    (over : b.overlay ≡ (promote hits a.overlay a.pending).0) (forgotten : find id b.pending ≡ none)
    (hit : IsHit a hits id) where
  same_select : select b.node_map id ≡ select a.node_map id
  same_select = ap (λ m. select m id) map

  promoted : find id b.overlay ≡ find id (promote hits a.overlay a.pending).0
  promoted = ap (λ m. find id m) over

  resolve-promoted : (resolve b id).0 ≡ (resolve a id).0
  resolve-promoted = elim (Option-cases (select a.node_map id)) [
    | inr (p, e) ↦ rw (resolve_in_map a id p e, resolve_in_map b id p (same_select ∙ e))
    | inl e ↦ elim (Option-cases (find id a.overlay)) [
      | inr (q, k) ↦
          let kept = promoted ∙ promote-old id q hits a.overlay a.pending k in
          rw (resolve_in_overlay a id q e k, resolve_in_overlay b id q (same_select ∙ e) kept)
      | inl k ↦ elim (Option-cases (find id a.pending)) [
        | inr (p, l) ↦
            let was = resolve_in_pending a id p e k l in
            let moved = promoted ∙ promote-hit id p hits a.overlay a.pending (hit (rw was)) k l in
            rw (was, resolve_in_overlay b id p (same_select ∙ e) moved)
        | inl l ↦
            let none_there = promoted ∙ promote-none id hits a.overlay a.pending k l in
            rw (
              resolve_nowhere a id e k l,
              resolve_nowhere b id (same_select ∙ e) none_there forgotten,
            )
      ]
    ]
  ]

module _ (to_mercator : Double → Double → Point) (double_eq : Double → Double → Bool) (srid : ℤ)
    (boost : Boost) (a : RegionalApplier) (w : WayEntry) where
  build_way_geom-hits :
      (build_way_geom to_mercator double_eq srid boost a w).1.1 ≡ (resolve_all a w.node_refs).1
  unfolding build_way_geom
  build_way_geom-hits = elim (Bool-cases (ltb (length (resolve_all a w.node_refs).0) 2)) [
    | inl e ↦ rw e
    | inr e ↦ rw e
  ]

  -- When a way was built and lies in a region, and the diff ends with it, every reference of it
  -- resolves after the flush, which forgets the pending nodes, to what it resolved to when the way
  -- was built.
  pub resolve-upsert_way :
      let geom = (build_way_geom to_mercator double_eq srid boost a w).0 in
      is_empty geom ≡ false
      → in_region to_mercator double_eq srid boost a.regions geom ≡ true
      → All
          (λ id.
            (resolve (flush (upsert_way to_mercator double_eq srid boost a w)) id).0
            ≡ (resolve a id).0)
          w.node_refs
  unfolding upsert_way flush
  resolve-upsert_way built inside =
      let hits = (build_way_geom to_mercator double_eq srid boost a w).1.1 in
      let after = flush (upsert_way to_mercator double_eq srid boost a w) in
      let over : after.overlay ≡ (promote hits a.overlay a.pending).0 = rw (built, inside) in
      let map : after.node_map ≡ a.node_map = rw (built, inside) in
      All-map
        (λ id hit.
          resolve-promoted a after id hits map over (unfold find in refl)
            (rw build_way_geom-hits hit))
        w.node_refs (resolve_all-IsHit a w.node_refs)
