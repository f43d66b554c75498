-- ===== src/Import/Assembled.antt =====
-- What `decode` makes of the polygons that `buildMultipolygon` writes.
use gpsxdb.Prelude.{
  suc, ◌+◌, ◌^◌, ◌<◌, ◌≤◌, ◌≡◌, refl, ap, Bool-cases, inl, inr, List, [], ◌∷◌, map, length,
  append-nil, Bool, All, arith,
}
use gpsxdb.Prelude.Int.{ℤ}
use gpsxdb.Bytes.{Double}
use gpsxdb.Bytes.Signed.{IsI32}
use gpsxdb.Wkb.Geometry.{Polygon, Decoded, Outcome, found, nullopt, polygon, multi_polygon}
use gpsxdb.Wkb.Hex.{to_hex, hex_to_bytes, hex_to_bytes-to_hex}
use gpsxdb.Wkb.Encode.{write_wkb_polygon}
use gpsxdb.Wkb.Encode.Valid.{write_wkb_polygon-IsByte}
use gpsxdb.Wkb.Decode.{decode}
use gpsxdb.Wkb.Decode.Parts.{IsRing}
use gpsxdb.Wkb.Decode.Merge.{decode-nil}
use gpsxdb.Wkb.Decode.RoundTrip.{with_srid, decode-write_wkb_polygon}
use gpsxdb.Wkb.Decode.Polygons.{
  IsPolygon, polygon_bytes, multi_polygon_bytes, multi_polygon_bytes-IsByte,
  decode-multi_polygon_bytes,
}
use gpsxdb.Rings.{Ring}
use gpsxdb.Import.Multipolygon.{is_within, matched_inners, polygons_bytes, polygons}

module _ (less : Double → Double → Bool) (at_most : Double → Double → Bool) where
  -- The polygons of several outer rings.
  abbrev pub with_holes : List Ring → List Ring → List Polygon
  with_holes [] inners = []
  with_holes (outer ∷ outers) inners =
      record { outer = outer; inners = matched_inners less at_most outer inners }
      ∷ with_holes outers inners

  abbrev pub shape : ℤ → List Ring → List Ring → Outcome Decoded
  shape srid [] inners = nullopt
  shape srid (outer ∷ []) inners =
      found (with_srid srid (polygon (record { outer = outer; inners = inners })))
  shape srid (outer ∷ outer' ∷ outers) inners =
      found (with_srid srid (multi_polygon (with_holes (outer ∷ outer' ∷ outers) inners)))

  length-matched_inners :
      (outer : Ring) (inners : List Ring)
      → length (matched_inners less at_most outer inners) ≤ length inners
  unfolding matched_inners
  length-matched_inners outer [] = omega arith
  length-matched_inners outer (inner ∷ inners) =
      elim (Bool-cases (is_within less at_most inner outer)) [
        | inl e ↦ rw e (omega (arith, length-matched_inners outer inners))
        | inr e ↦ rw e (omega (arith, length-matched_inners outer inners))
      ]

  matched_inners-IsRing :
      (outer : Ring) (inners : List Ring)
      → All IsRing inners
      → All IsRing (matched_inners less at_most outer inners)
  unfolding matched_inners
  matched_inners-IsRing outer [] h = tt
  matched_inners-IsRing outer (inner ∷ inners) h =
      elim (Bool-cases (is_within less at_most inner outer)) [
        | inl e ↦ rw e (h.0, matched_inners-IsRing outer inners h.1)
        | inr e ↦ rw e (matched_inners-IsRing outer inners h.1)
      ]

  length-with_holes :
      (outers inners : List Ring) → length (with_holes outers inners) ≡ length outers
  length-with_holes [] inners = refl
  length-with_holes (outer ∷ outers) inners = ap suc (length-with_holes outers inners)

  with_holes-IsPolygon :
      (outers inners : List Ring)
      → 1 + length inners < 2 ^ 32
      → All IsRing outers
      → All IsRing inners
      → All IsPolygon (with_holes outers inners)
  with_holes-IsPolygon [] inners n h k = tt
  with_holes-IsPolygon (outer ∷ outers) inners n h k = (
    (omega (arith, length-matched_inners outer inners), h.0, matched_inners-IsRing outer inners k),
    with_holes-IsPolygon outers inners n h.1 k,
  )

  module _ (srid : ℤ) where
    polygons_bytes-eq :
        (outers inners : List Ring)
        → polygons_bytes less at_most srid outers inners
          ≡ map (polygon_bytes srid) (with_holes outers inners)
    unfolding polygons_bytes
    polygons_bytes-eq [] inners = refl
    polygons_bytes-eq (outer ∷ outers) inners =
        ap (λ bs. write_wkb_polygon srid outer (matched_inners less at_most outer inners) ∷ bs)
          (polygons_bytes-eq outers inners)

    polygons-eq :
        (outer outer' : Ring) (outers inners : List Ring)
        → polygons less at_most srid (outer ∷ outer' ∷ outers) inners
          ≡ multi_polygon_bytes srid (with_holes (outer ∷ outer' ∷ outers) inners)
    unfolding polygons
    polygons-eq outer outer' outers inners =
        rw (polygons_bytes-eq (outer ∷ outer' ∷ outers) inners, length-with_holes outers inners)

    pub decode-polygons :
        (outers inners : List Ring)
        → IsI32 srid
        → length outers < 2 ^ 32
        → 1 + length inners < 2 ^ 32
        → All IsRing outers
        → All IsRing inners
        → decode (hex_to_bytes (to_hex (polygons less at_most srid outers inners)))
          ≡ shape srid outers inners
    decode-polygons [] inners z m n h k = unfold polygons to_hex hex_to_bytes in decode-nil
    decode-polygons (outer ∷ []) inners z m n h k =
        unfold polygons in
        rw (hex_to_bytes-to_hex _ (write_wkb_polygon-IsByte srid outer inners))
          (rw append-nil at (decode-write_wkb_polygon srid outer inners [] z n h.0 k))
    decode-polygons (outer ∷ outer' ∷ outers) inners z m n h k =
        let ps = with_holes (outer ∷ outer' ∷ outers) inners in
        rw
          (
            polygons-eq outer outer' outers inners,
            hex_to_bytes-to_hex _ (multi_polygon_bytes-IsByte srid ps),
          )
          (decode-multi_polygon_bytes srid z ps (omega (arith, length-with_holes outers inners))
            (with_holes-IsPolygon (outer ∷ outer' ∷ outers) inners n h k))
