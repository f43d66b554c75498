-- ===== src/Import/Assembly.antt =====
-- `buildMultipolygon` as a whole: members, rings, polygons.
use gpsxdb.Prelude.{
  ℕ, suc, ◌+◌, ◌^◌, ◌<◌, ◌≤◌, ◌≡◌, refl, subst, ◌∙◌, Bool, true, false, List, [], ◌∷◌, length, All,
  arith,
}
use gpsxdb.Prelude.Int.{ℤ}
use gpsxdb.Bytes.{Double}
use gpsxdb.Bytes.Signed.{IsI32}
use gpsxdb.Wkb.Geometry.{Point}
use gpsxdb.Wkb.Hex.{Text, to_hex, hex_to_bytes}
use gpsxdb.Wkb.Decode.{decode}
use gpsxdb.Wkb.Decode.Parts.{IsPoint, IsRing}
use gpsxdb.Nav.{same_text}
use gpsxdb.Rings.{
  Ring, Segment, Stitched, done, undefined, out_of_fuel, same_point, stitch, stitch_rings,
}
use gpsxdb.Rings.Sound.{IsSegment, IsClosedRing, stitch_rings-IsClosedRing}
use gpsxdb.Rings.Size.{total, FitsStitched, stitch_rings-FitsStitched}
use gpsxdb.Import.Names.{inner_text}
use gpsxdb.Import.Multipolygon.{
  Member, push_segment, segments, polygons, assemble, build_multipolygon,
}
use gpsxdb.Import.Assembled.{decode-polygons}
use gpsxdb.Import.Holes.{stored, IsOrder, IsRealPoint, shape-stored}
use gpsxdb.Nav.{is_empty}
use gpsxdb.Wkb.Encode.{write_header, write_wkb_polygon}

-- A point whose coordinates are no NaN.
abbrev pub IsNumber : (Double → Double → Bool) → Point → Type 0
IsNumber double_eq p = IsPoint p × (same_point double_eq p p ≡ true)

module _ (P : Point → Type 0) where
  push_segment-IsSegment :
      (inner wanted : Bool) (ps : List Point) (segs : List Segment)
      → All P ps
      → All (IsSegment P) segs
      → All (IsSegment P) (push_segment inner wanted ps segs)
  push_segment-IsSegment inner wanted [] segs h k = k
  push_segment-IsSegment true true (p ∷ ps) segs h k = ((tt, h), k)
  push_segment-IsSegment true false (p ∷ ps) segs h k = k
  push_segment-IsSegment false true (p ∷ ps) segs h k = k
  push_segment-IsSegment false false (p ∷ ps) segs h k = ((tt, h), k)

  segments-IsSegment :
      (coords : ℤ → List Point) (inner : Bool) (members : List Member)
      → ((id : ℤ) → All P (coords id))
      → All (IsSegment P) (segments coords inner members)
  unfolding segments
  segments-IsSegment coords inner [] h = tt
  segments-IsSegment coords inner (m ∷ members) h =
      push_segment-IsSegment inner (same_text m.role inner_text) (coords m.id)
        (segments coords inner members) (h m.id) (segments-IsSegment coords inner members h)

IsNumber-IsPoint :
    (double_eq : Double → Double → Bool) (ps : List Point)
    → All (IsNumber double_eq) ps
    → All IsPoint ps
IsNumber-IsPoint double_eq [] h = tt
IsNumber-IsPoint double_eq (p ∷ ps) h = (h.0.0, IsNumber-IsPoint double_eq ps h.1)

rings-IsRing :
    (double_eq : Double → Double → Bool) (n : ℕ) (rings : List Ring)
    → suc n < 2 ^ 32
    → All (λ r. length r ≤ suc n) rings
    → All (IsClosedRing (IsNumber double_eq) double_eq) rings
    → All IsRing rings
rings-IsRing double_eq n [] l h k = tt
rings-IsRing double_eq n (r ∷ rings) l h k = (
  (omega (arith, h.0), IsNumber-IsPoint double_eq r k.0.1),
  rings-IsRing double_eq n rings l h.1 k.1,
)

-- The rings of segments, with what the encoder asks of them.
stitched_rings :
    (double_eq : Double → Double → Bool) (segs : List Segment)
    → All (IsSegment (IsNumber double_eq)) segs
    → suc (total segs) < 2 ^ 32
    → (rings : List Ring) × (stitch_rings double_eq segs ≡ done rings)
      × All (IsClosedRing (IsNumber double_eq) double_eq) rings
      × (1 + length rings < 2 ^ 32)
      × All IsRing rings
stitched_rings double_eq segs h small =
    let (rings, run, closed) =
      stitch_rings-IsClosedRing (IsNumber double_eq) double_eq segs (λ p k. k.1) h in
    let fits : FitsStitched (total segs) (done rings) =
      subst (FitsStitched (total segs)) run (stitch_rings-FitsStitched double_eq segs) in
    (
      rings,
      run,
      closed,
      omega (arith, fits.0),
      rings-IsRing double_eq (total segs) rings small fits.1 closed,
    )

abbrev pub has_none : List Ring → Bool
has_none [] = true
has_none (r ∷ rings) = false

module _ (double_eq less at_most : Double → Double → Bool) (order : IsOrder double_eq less at_most)
    (srid : ℤ) (coords : ℤ → List Point) where
  abbrev IsNothing : Stitched (List Ring) → Type 0
  IsNothing (done []) = Unit
  IsNothing (done (r ∷ rings)) = ⊥
  IsNothing undefined = ⊥
  IsNothing out_of_fuel = ⊥

  no_rings : (r : Ring) (rings : List Ring) → ¬ (stitch_rings double_eq [] ≡ done (r ∷ rings))
  unfolding stitch_rings stitch
  no_rings r rings run = subst IsNothing run tt

  assemble-done :
      (segs inner_segs : List Segment) (outers inners : List Ring)
      → stitch_rings double_eq segs ≡ done outers
      → stitch_rings double_eq inner_segs ≡ done inners
      → assemble less at_most double_eq srid segs inner_segs
        ≡ done (to_hex (polygons less at_most srid outers inners))
  unfolding assemble
  assemble-done [] inner_segs [] inners run run' = unfold polygons to_hex in refl
  assemble-done [] inner_segs (r ∷ outers) inners run run' = absurd (no_rings r outers run)
  assemble-done (seg ∷ segs) inner_segs outers inners run run' = rw (run, run')

  is_empty-polygons :
      (outers inners : List Ring)
      → is_empty (to_hex (polygons less at_most srid outers inners)) ≡ has_none outers
  unfolding polygons to_hex write_wkb_polygon write_header
  is_empty-polygons [] inners = refl
  is_empty-polygons (outer ∷ []) inners = refl
  is_empty-polygons (outer ∷ outer' ∷ outers) inners = refl

  ring_numbers :
      (ps : List Point)
      → All (IsNumber double_eq) ps
      → All (IsRealPoint double_eq less at_most order) ps
  unfolding same_point
  ring_numbers [] h = tt
  ring_numbers (p ∷ ps) (h, hs) = let e = h.1 in ((ground arith, ground arith), ring_numbers ps hs)

  rings_numbers :
      (rings : List Ring)
      → All (IsClosedRing (IsNumber double_eq) double_eq) rings
      → All (All (IsRealPoint double_eq less at_most order)) rings
  rings_numbers [] h = tt
  rings_numbers (r ∷ rings) (h, hs) = (ring_numbers r h.1, rings_numbers rings hs)

  -- Of any members, the coordinates of whose ways are no NaN and fewer than 2 ^ 32 - 1 in all, ways
  -- counted, for each of the two roles, if the comparisons of doubles are an order: `buildMultipolygon`
  -- ends; the rings that it stitches of the outer and of the inner members are closed, of four points
  -- or more; its text is empty exactly if there is no outer ring, and is decoded to one polygon with
  -- all inner rings for holes if there is one, and otherwise to one polygon for each, in their order.
  -- Of these a polygon has for holes, in their order, the inner rings whose first point is not outside
  -- of its outer ring's bounding box: in each of the four directions some point of the outer ring lies
  -- as far.
  pub decode-build_multipolygon :
      (members : List Member)
      → IsI32 srid
      → ((id : ℤ) → All (IsNumber double_eq) (coords id))
      → suc (total (segments coords false members)) < 2 ^ 32
      → suc (total (segments coords true members)) < 2 ^ 32
      → (outers : List Ring) × (inners : List Ring) × (hex : Text) × (stitch_rings double_eq
            (segments coords false members)
          ≡ done outers)
        × (stitch_rings double_eq (segments coords true members) ≡ done inners)
        × All (IsClosedRing (IsNumber double_eq) double_eq) outers
        × All (IsClosedRing (IsNumber double_eq) double_eq) inners
        × (build_multipolygon less at_most double_eq srid coords members ≡ done hex)
        × (is_empty hex ≡ has_none outers)
        × (decode (hex_to_bytes hex) ≡ stored at_most srid outers inners)
  decode-build_multipolygon members z numbers m n =
      let (outers, run, closed, few, rings) =
        stitched_rings double_eq (segments coords false members)
          (segments-IsSegment (IsNumber double_eq) coords false members numbers) m in
      let (inners, run', closed', few', rings') =
        stitched_rings double_eq (segments coords true members)
          (segments-IsSegment (IsNumber double_eq) coords true members numbers) n in
      (
        outers,
        inners,
        to_hex (polygons less at_most srid outers inners),
        run,
        run',
        closed,
        closed',
        unfold build_multipolygon in
            (assemble-done (segments coords false members) (segments coords true members) outers
              inners run run'),
        is_empty-polygons outers inners,
        decode-polygons less at_most srid outers inners z (omega arith) few' rings rings'
            ∙ shape-stored double_eq less at_most order srid outers inners
                (rings_numbers outers closed),
      )
