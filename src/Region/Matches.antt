-- ===== src/Region/Matches.antt =====
-- The filters of `matches` lose nothing: it finds what a test of every polygon finds.
use gpsxdb.Prelude.{
  ◌+◌, ◌≡◌, refl, sym, Bool, true, false, Bool-cases, inl, inr, if◌then◌else◌, List, [], ◌∷◌, ◌++◌,
  some, get_elem?, ◌⊎◌, length, length-append, append_assoc, All, arith,
}
use gpsxdb.Bytes.{Double}
use gpsxdb.Wkb.Geometry.{Geom, Point, Polygon}
use gpsxdb.Wkb.Hex.{Text}
use gpsxdb.Region.{
  Boost, Box, ranges_overlap, insert_all, build, query, any_hit, meets_bounds, matches_box,
}

-- Some polygon of the region intersects the geometry.
abbrev pub any_intersects : Boost → Geom → List Polygon → Bool
any_intersects boost g [] = false
any_intersects boost g (p ∷ ps) = if boost.intersects g p then true else any_intersects boost g ps

get_elem?-append_self :
    (pre : List Polygon) (p : Polygon) (ps : List Polygon)
    → get_elem? (pre ++ (p ∷ ps)) (length pre) ≡ some p
get_elem?-append_self [] p ps = refl
get_elem?-append_self (q ∷ pre) p ps = get_elem?-append_self pre p ps

module _ (boost : Boost) (g : Geom)
    (sound : (p : Polygon)
      → boost.intersects g p ≡ true
      → boost.boxes_meet (boost.polygon_envelope p) (boost.envelope g) ≡ true) where
  any_hit-query :
      (ps pre : List Polygon)
      → any_hit boost g
          (pre ++ ps)
          (query boost (insert_all boost (length pre) ps) (boost.envelope g))
        ≡ any_intersects boost g ps
  unfolding any_hit query insert_all
  any_hit-query [] pre = refl
  any_hit-query (p ∷ ps) pre =
      let next : length (pre ++ (p ∷ [])) ≡ length pre + 1 =
        omega (arith, length-append pre (p ∷ [])) in
      let rest : any_hit boost g (pre ++ (p ∷ ps))
            (query boost (insert_all boost (length pre + 1) ps) (boost.envelope g))
          ≡ any_intersects boost g ps =
        (rw (next, append_assoc) at (any_hit-query ps (pre ++ (p ∷ [])))) in
      elim (Bool-cases (boost.boxes_meet (boost.polygon_envelope p) (boost.envelope g))) [
        | inl e ↦ rw (e, any_hit, get_elem?-append_self pre p ps, rest)
        | inr e ↦ elim (Bool-cases (boost.intersects g p)) [
          | inl i ↦ absurd (ground (arith, e, sound p i))
          | inr i ↦ rw (e, i) rest
        ]
      ]

  any_intersects-none :
      (ps : List Polygon)
      → All (λ p. boost.intersects g p ≡ false) ps
      → any_intersects boost g ps ≡ false
  any_intersects-none [] h = refl
  any_intersects-none (p ∷ ps) h = rw (h.0) (any_intersects-none ps h.1)

-- The point is not outside of the box.
abbrev pub IsInBox : Boost → Box → Point → Type 0
IsInBox boost b q =
    ((boost.le b.min_corner.0 q.0 ≡ true) × (boost.le q.0 b.max_corner.0 ≡ true))
    × ((boost.le b.min_corner.1 q.1 ≡ true) × (boost.le q.1 b.max_corner.1 ≡ true))

-- The value lies between the bounds; or, where these go across the antimeridian, the lower one being
-- the greater, not between them.
abbrev pub IsInRange : Boost → Double → Double → Double → Type 0
IsInRange boost lo hi x =
    ((boost.le lo x ≡ true) × (boost.le x hi ≡ true))
    ⊎ ((boost.le lo hi ≡ false) × ((boost.le lo x ≡ true) ⊎ (boost.le x hi ≡ true)))

-- What the code relies on: doubles are ordered; a geometry and a polygon that intersect have a point
-- in common, which both envelopes hold; and boxes with a common point meet.
pub record IsBoost (boost : Boost) (IsOn : Geom → Point → Type 0)
    (IsInside : Polygon → Point → Type 0) : Type 0 where
  pub le_trans : (a b c : Double) → boost.le a b ≡ true → boost.le b c ≡ true → boost.le a c ≡ true
  pub le_not_lt : (a b : Double) → boost.le a b ≡ true → boost.lt b a ≡ false
  pub common :
      (g : Geom) (p : Polygon) → boost.intersects g p ≡ true → (q : Point) × IsOn g q × IsInside p q
  pub envelope_holds : (g : Geom) (q : Point) → IsOn g q → IsInBox boost (boost.envelope g) q
  pub polygon_envelope_holds :
      (p : Polygon) (q : Point) → IsInside p q → IsInBox boost (boost.polygon_envelope p) q
  pub boxes_meet_at :
      (b c : Box) (q : Point) → IsInBox boost b q → IsInBox boost c q → boost.boxes_meet b c ≡ true

module _ (boost : Boost) (IsOn : Geom → Point → Type 0) (IsInside : Polygon → Point → Type 0)
    (is : IsBoost boost IsOn IsInside) (g : Geom) where
  envelopes_meet :
      (p : Polygon)
      → boost.intersects g p ≡ true
      → boost.boxes_meet (boost.polygon_envelope p) (boost.envelope g) ≡ true
  envelopes_meet p h =
      let (q, on, inside) = is.common g p h in
      is.boxes_meet_at (boost.polygon_envelope p) (boost.envelope g) q
        (is.polygon_envelope_holds p q inside) (is.envelope_holds g q on)

  -- A range with a value of another range in it overlaps this range.
  IsInRange-overlap :
      (lo hi v0 v1 x : Double)
      → IsInRange boost lo hi x
      → boost.le v0 x ≡ true
      → boost.le x v1 ≡ true
      → ranges_overlap boost lo hi v0 v1 ≡ true
  unfolding ranges_overlap
  IsInRange-overlap lo hi v0 v1 x (inl (l, h)) a b =
      rw (is.le_trans lo x hi l h, is.le_trans lo x v1 l b, is.le_trans v0 x hi a h)
  IsInRange-overlap lo hi v0 v1 x (inr (wrap, inl l)) a b =
      rw (wrap, is.le_not_lt lo v1 (is.le_trans lo x v1 l b)) (ground arith)
  IsInRange-overlap lo hi v0 v1 x (inr (wrap, inr h)) a b =
      rw (wrap, is.le_not_lt v0 hi (is.le_trans v0 x hi a h))

  module _ (name : Text) (min_x min_y max_x max_y : Double) where
    -- The bounds hold each point of the polygon.
    abbrev pub IsBounded : Polygon → Type 0
    IsBounded p =
        (q : Point)
        → IsInside p q
        → IsInRange boost min_x max_x q.0
          × (boost.le min_y q.1 ≡ true)
          × (boost.le q.1 max_y ≡ true)

    intersects-meets_bounds :
        (ps : List Polygon) (p : Polygon)
        → IsBounded p
        → boost.intersects g p ≡ true
        → meets_bounds boost (build boost name min_x min_y max_x max_y ps) (boost.envelope g) ≡ true
    unfolding meets_bounds build
    intersects-meets_bounds ps p bounded h =
        let (q, on, inside) = is.common g p h in
        let (across, low, high) = bounded q inside in
        let ((x0, x1), (y0, y1)) = is.envelope_holds g q on in
        let env = boost.envelope g in
        rw (
          IsInRange-overlap min_x max_x env.min_corner.0 env.max_corner.0 q.0 across x0 x1,
          is.le_trans min_y q.1 env.max_corner.1 low y1,
          is.le_trans env.min_corner.1 q.1 max_y y0 high,
        )

    no_intersection :
        (all ps : List Polygon)
        → All IsBounded ps
        → meets_bounds boost (build boost name min_x min_y max_x max_y all) (boost.envelope g)
          ≡ false
        → All (λ p. boost.intersects g p ≡ false) ps
    no_intersection all [] h e = tt
    no_intersection all (p ∷ ps) (h, hs) e = (
      elim (Bool-cases (boost.intersects g p)) [
        | inl i ↦ absurd (ground (arith, e, intersects-meets_bounds all p h i))
        | inr i ↦ i
      ],
      no_intersection all ps hs e,
    )

    -- Where the bounds of a region hold the points of its polygons, also across the antimeridian,
    -- the test by bounds, tree and exact intersection gives what the exact test of every polygon
    -- gives. Geometries that intersect have a point in common, an envelope holds the points of its
    -- geometry, boxes with a common point meet, and doubles are ordered.
    pub matches_box-any_intersects :
        (ps : List Polygon)
        → All IsBounded ps
        → matches_box boost (build boost name min_x min_y max_x max_y ps) g
          ≡ any_intersects boost g ps
    unfolding matches_box build
    matches_box-any_intersects ps bounded =
        elim (Bool-cases
          (meets_bounds boost (build boost name min_x min_y max_x max_y ps) (boost.envelope g))) [
            | inl e ↦ rw e (any_hit-query boost g envelopes_meet ps [])
            | inr e ↦ rw e (
                sym
                  (any_intersects-none boost g envelopes_meet ps (no_intersection ps ps bounded e)))
          ]
