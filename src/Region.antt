-- ===== src/Region.antt =====
-- src/RegionIndex.cpp: the test of a geometry against a region. Boost.Geometry's operations are the
-- fields of `Boost`; a query of the tree gives the entries whose box meets the candidate's, which
-- are kept here in the order of their insertion. Doubles are compared by the host.
pub mod Matches
mod Tests
use gpsxdb.Prelude.{
  ℕ, ◌+◌, Bool, true, false, not, ◌&&◌, if◌then◌else◌, List, [], ◌∷◌, none, some, get_elem?,
}
use gpsxdb.Bytes.{Double}
use gpsxdb.Wkb.Geometry.{Geom, monostate, Point, Polygon}
use gpsxdb.Wkb.Hex.{Text}

pub record Box : Type 0 where
  pub min_corner : Point
  pub max_corner : Point

pub record Boost : Type 0 where
  pub le : Double → Double → Bool
  pub lt : Double → Double → Bool
  pub envelope : Geom → Box
  pub polygon_envelope : Polygon → Box
  pub boxes_meet : Box → Box → Bool
  pub intersects : Geom → Polygon → Bool

pub record Entry : Type 0 where
  pub name : Text
  pub min_x : Double
  pub min_y : Double
  pub max_x : Double
  pub max_y : Double
  pub polygon : List Polygon
  pub rtree : List (Box × ℕ)

module _ (boost : Boost) where
  unfoldable pub ranges_overlap : Double → Double → Double → Double → Bool
  ranges_overlap lo hi v0 v1 =
      if boost.le lo hi
      then boost.le lo v1 && boost.le v0 hi
      else not (boost.lt hi v0 && boost.lt v1 lo)

  -- The loop of `build`.
  unfoldable pub insert_all : ℕ → List Polygon → List (Box × ℕ)
  insert_all i [] = []
  insert_all i (p ∷ ps) = (boost.polygon_envelope p, i) ∷ insert_all (i + 1) ps

  unfoldable pub build : Text → Double → Double → Double → Double → List Polygon → Entry
  build name min_x min_y max_x max_y polygon = record {
    name = name;
    min_x = min_x;
    min_y = min_y;
    max_x = max_x;
    max_y = max_y;
    polygon = polygon;
    rtree = insert_all 0 polygon;
  }

  unfoldable pub query : List (Box × ℕ) → Box → List ℕ
  query [] box = []
  query ((b, i) ∷ rtree) box =
      let rest = query rtree box in if boost.boxes_meet b box then i ∷ rest else rest

  unfoldable pub any_hit : Geom → List Polygon → List ℕ → Bool
  any_hit g ps [] = false
  any_hit g ps (i ∷ hits) =
      if elim (get_elem? ps i) [ none ↦ false | some p ↦ boost.intersects g p ]
      then true
      else any_hit g ps hits

  unfoldable pub meets_bounds : Entry → Box → Bool
  meets_bounds region box =
      let (lo_pt, hi_pt) : Point × Point = (box.min_corner, box.max_corner) in
      if not (ranges_overlap region.min_x region.max_x lo_pt.0 hi_pt.0)
      then false
      else boost.le region.min_y hi_pt.1 && boost.le lo_pt.1 region.max_y

  unfoldable pub matches_box : Entry → Geom → Bool
  matches_box region g =
      let box = boost.envelope g in
      if not (meets_bounds region box)
      then false
      else any_hit g region.polygon (query region.rtree box)

  -- A null geometry has no envelope.
  unfoldable pub matches : Entry → Geom → Bool
  matches region monostate = false
  matches region g = matches_box region g

  -- The loops over the installed regions in the regional applier.
  unfoldable pub matches_any : List Entry → Geom → Bool
  matches_any [] g = false
  matches_any (region ∷ regions) g = if matches region g then true else matches_any regions g
