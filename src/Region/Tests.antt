-- ===== src/Region/Tests.antt =====
-- The theorem of the region test at a concrete input: points against rectangles, in a region that
-- goes across the antimeridian.
use gpsxdb.Prelude.{◌≡◌, refl, Bool, true, ◌&&◌, inl, inr, List, [], ◌∷◌, leb, ltb, arith}
use gpsxdb.Wkb.Geometry.{Geom, Point, Polygon, point}
use gpsxdb.Region.{Boost, Box, build, matches_box}
use gpsxdb.Region.Matches.{any_intersects, IsInBox, IsBoost, IsBounded, matches_box-any_intersects}

abbrev point_of : Geom → Point
point_of (point p) = p
point_of g = (0, 0)

-- The rectangle between the first and the second point.
abbrev corners : List Point → Box
corners (p ∷ q ∷ ps) = record { min_corner = p; max_corner = q }
corners ps = record { min_corner = (1, 1); max_corner = (0, 0) }

abbrev is_in : Box → Point → Bool
is_in b q =
    (leb b.min_corner.0 q.0 && leb q.0 b.max_corner.0)
    && (leb b.min_corner.1 q.1 && leb q.1 b.max_corner.1)

abbrev boost : Boost
boost = record {
  le = leb;
  lt = ltb;
  envelope = λ g. record { min_corner = point_of g; max_corner = point_of g };
  polygon_envelope = λ p. corners p.outer;
  boxes_meet = λ b c.
      (leb b.min_corner.0 c.max_corner.0 && leb c.min_corner.0 b.max_corner.0)
      && (leb b.min_corner.1 c.max_corner.1 && leb c.min_corner.1 b.max_corner.1);
  intersects = λ g p. is_in (corners p.outer) (point_of g);
}

abbrev IsOn : Geom → Point → Type 0
IsOn g q = point_of g ≡ q

abbrev IsInside : Polygon → Point → Type 0
IsInside p q = is_in (corners p.outer) q ≡ true

is_in-IsInBox : (b : Box) (q : Point) → is_in b q ≡ true → IsInBox boost b q
is_in-IsInBox b q h = ((ground arith, ground arith), (ground arith, ground arith))

boxes_at :
    (b c : Box) (q : Point) → IsInBox boost b q → IsInBox boost c q → boost.boxes_meet b c ≡ true
boxes_at b c q ((h, k), (l, m)) ((h', k'), (l', m')) = ground arith

point_in_envelope : (g : Geom) (q : Point) → point_of g ≡ q → IsInBox boost (boost.envelope g) q
point_in_envelope g q e = rw e ((ground arith, ground arith), (ground arith, ground arith))

boost-IsBoost : IsBoost boost IsOn IsInside
boost-IsBoost = record {
  le_trans = λ a b c h k. ground arith;
  le_not_lt = λ a b h. ground arith;
  common = λ g p h. (point_of g, refl, h);
  envelope_holds = point_in_envelope;
  polygon_envelope_holds = λ p q h. is_in-IsInBox (corners p.outer) q h;
  boxes_meet_at = boxes_at;
}

abbrev west : Polygon
west = record { outer = (2, 0) ∷ (8, 9) ∷ []; inners = [] }

abbrev east : Polygon
east = record { outer = (25, 3) ∷ (30, 7) ∷ []; inners = [] }

west-IsBounded : IsBounded boost IsOn IsInside boost-IsBoost (point (7, 8)) [] 20 0 10 9 west
west-IsBounded q h = (inr (refl, inr (ground arith)), ground arith, ground arith)

east-IsBounded : IsBounded boost IsOn IsInside boost-IsBoost (point (7, 8)) [] 20 0 10 9 east
east-IsBounded q h = (inr (refl, inl (ground arith)), ground arith, ground arith)

matches_box-any_intersects_example :
    matches_box boost (build boost [] 20 0 10 9 (west ∷ east ∷ [])) (point (7, 8))
    ≡ any_intersects boost (point (7, 8)) (west ∷ east ∷ [])
matches_box-any_intersects_example =
    matches_box-any_intersects boost IsOn IsInside boost-IsBoost (point (7, 8)) [] 20 0 10 9
      (west ∷ east ∷ []) (west-IsBounded, (east-IsBounded, tt))
