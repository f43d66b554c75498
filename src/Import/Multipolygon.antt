-- ===== src/Import/Multipolygon.antt =====
-- `buildMultipolygon` of src/main.cpp. The map that `getWayCoordsMap` returns is the parameter
-- `coords`, which gives no point for a way that is not there. Comparisons of doubles are parameters.
use gpsxdb.Prelude.{◌%◌, ◌^◌, Bool, true, false, ◌&&◌, if◌then◌else◌, List, [], ◌∷◌, ◌++◌, length}
use gpsxdb.Prelude.Int.{ℤ}
use gpsxdb.Bytes.{Bytes, Double, write_le32}
use gpsxdb.Wkb.Geometry.{Point}
use gpsxdb.Wkb.Hex.{Text, to_hex}
use gpsxdb.Wkb.Encode.{write_header, write_wkb_polygon, concat}
use gpsxdb.Nav.{same_text}
use gpsxdb.Rings.{Ring, Segment, Stitched, done, ◌>>=◌, stitch_rings}
use gpsxdb.Import.Names.{inner_text}

pub record Member : Type 0 where
  pub id : ℤ
  pub role : Text

pub record Bounds : Type 0 where
  pub ox0 : Double
  pub ox1 : Double
  pub oy0 : Double
  pub oy1 : Double

abbrev pub push_segment : Bool → Bool → Segment → List Segment → List Segment
push_segment inner wanted [] segs = segs
push_segment true true (p ∷ ps) segs = (p ∷ ps) ∷ segs
push_segment true false (p ∷ ps) segs = segs
push_segment false true (p ∷ ps) segs = segs
push_segment false false (p ∷ ps) segs = (p ∷ ps) ∷ segs

-- The segments of the members whose role is "inner", or of those whose role is not.
unfoldable pub segments : (ℤ → List Point) → Bool → List Member → List Segment
segments coords inner [] = []
segments coords inner (m ∷ members) =
    push_segment inner (same_text m.role inner_text) (coords m.id) (segments coords inner members)

module _ (less : Double → Double → Bool) (at_most : Double → Double → Bool) where
  -- `std::min` and `std::max`.
  unfoldable pub widen : Bounds → List Point → Bounds
  widen b [] = b
  widen b ((x, y) ∷ ps) =
      widen
        (record {
          ox0 = if less x b.ox0 then x else b.ox0;
          ox1 = if less b.ox1 x then x else b.ox1;
          oy0 = if less y b.oy0 then y else b.oy0;
          oy1 = if less b.oy1 y then y else b.oy1;
        })
        ps

  -- The first point of the inner ring is tested; no ring is empty here.
  unfoldable pub is_within : Ring → Ring → Bool
  is_within [] outer = false
  is_within (p ∷ ps) [] = false
  is_within ((ix, iy) ∷ ps) ((x, y) ∷ qs) =
      let b = widen (record { ox0 = x; ox1 = x; oy0 = y; oy1 = y }) ((x, y) ∷ qs) in
      at_most b.ox0 ix && (at_most ix b.ox1 && (at_most b.oy0 iy && at_most iy b.oy1))

  unfoldable pub matched_inners : Ring → List Ring → List Ring
  matched_inners outer [] = []
  matched_inners outer (inner ∷ inners) =
      if is_within inner outer
      then inner ∷ matched_inners outer inners
      else matched_inners outer inners

  unfoldable pub polygons_bytes : ℤ → List Ring → List Ring → List Bytes
  polygons_bytes srid [] inners = []
  polygons_bytes srid (outer ∷ outers) inners =
      write_wkb_polygon srid outer (matched_inners outer inners) ∷ polygons_bytes srid outers inners

  -- One outer ring takes all inner rings; several take those within their bounds.
  unfoldable pub polygons : ℤ → List Ring → List Ring → Bytes
  polygons srid [] inners = []
  polygons srid (outer ∷ []) inners = write_wkb_polygon srid outer inners
  polygons srid (outer ∷ outer' ∷ outers) inners = write_header srid 6 (
      write_le32 (length (outer ∷ outer' ∷ outers) % 2 ^ 32)
      ++ concat (polygons_bytes srid (outer ∷ outer' ∷ outers) inners))

  -- `if (outers.empty()) return "";`
  unfoldable pub assemble :
      (Double → Double → Bool) → ℤ → List Segment → List Segment → Stitched Text
  assemble double_eq srid [] inner_segs = done []
  assemble double_eq srid (seg ∷ segs) inner_segs =
      stitch_rings double_eq (seg ∷ segs) >>= λ outers.
      stitch_rings double_eq inner_segs >>= λ inners. done (to_hex (polygons srid outers inners))

  unfoldable pub build_multipolygon :
      (Double → Double → Bool) → ℤ → (ℤ → List Point) → List Member → Stitched Text
  build_multipolygon double_eq srid coords members =
      assemble double_eq srid (segments coords false members) (segments coords true members)
