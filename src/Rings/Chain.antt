-- ===== src/Rings/Chain.antt =====
-- A chain of segments, each of which begins where those before it end.
use gpsxdb.Prelude.{
  ℕ, zero, suc, ◌<◌, ◌≡◌, refl, ◌∙◌, ap₂, Bool, true, false, List, [], ◌∷◌, ◌++◌, length, Option,
  none, some, arith, ◌≤◌, leb, length-append, Bool-cases, inl, inr,
}
use gpsxdb.Bytes.{Double}
use gpsxdb.Wkb.Geometry.{Point}
use gpsxdb.Wkb.Encode.{is_ring}
use gpsxdb.Rings.{
  Ring, Segment, done, undefined, back, joined, no_join, bad_access, same_point, find_join, extend,
  close_ring, push_ring, stitch, stitch_rings, last_of,
}

-- The points of `ring`, and of each segment all but the first.
abbrev pub chain : Ring → List Segment → Ring
chain ring [] = ring
chain ring ([] ∷ segs) = chain ring segs
chain ring ((p ∷ ps) ∷ segs) = chain (ring ++ ps) segs

module _ (double_eq : Double → Double → Bool) where
  abbrev pub StartsAt : Point → Option Point → Type 0
  StartsAt p none = ⊥
  StartsAt p (some b) = same_point double_eq p b ≡ true

  -- The ring is open, and the first segment begins where it ends; and so on with this segment added.
  abbrev pub IsChain : Ring → List Segment → Type 0
  IsChain ring [] = Unit
  IsChain ring ([] ∷ segs) = ⊥
  IsChain ring ((p ∷ ps) ∷ segs) =
      (is_ring double_eq ring ≡ false) × StartsAt p (back ring) × IsChain (ring ++ ps) segs

  find_join-StartsAt :
      (p : Point) (ps : List Point) (segs : List Segment) (b : Option Point)
      → StartsAt p b
      → find_join double_eq b ((p ∷ ps) ∷ segs) ≡ joined ps segs
  unfolding find_join
  find_join-StartsAt p ps segs none h = absurd h
  find_join-StartsAt p ps segs (some b) h = rw h

  either_branch {ℓ} : {A : Type ℓ} (b : Bool) (x : A) → elim b [ true ↦ x | false ↦ x ] ≡ x
  either_branch true x = refl
  either_branch false x = refl

  extend_step :
      (fuel : ℕ) (ring : Ring) (segs : List Segment) (ps : List Point) (rest : List Segment)
      → is_ring double_eq ring ≡ false
      → find_join double_eq (back ring) segs ≡ joined ps rest
      → extend double_eq (suc fuel) ring segs ≡ extend double_eq fuel (ring ++ ps) rest
  unfolding extend
  extend_step fuel ring segs ps rest e j =
      ap₂
        (λ b o. elim b [
          | true ↦ done (ring, segs)
          | false ↦ elim o [
            | no_join ↦ done (ring, segs)
            | bad_access ↦ undefined
            | joined qs rs ↦ extend double_eq fuel (ring ++ qs) rs
          ]
        ])
        e j

  extend-IsChain :
      (fuel : ℕ) (ring : Ring) (segs : List Segment)
      → length segs < fuel
      → IsChain ring segs
      → extend double_eq fuel ring segs ≡ done (chain ring segs, [])
  unfolding extend find_join
  extend-IsChain zero ring segs l h = absurd (omega arith)
  extend-IsChain (suc fuel) ring [] l h = either_branch (is_ring double_eq ring) (done (ring, []))
  extend-IsChain (suc fuel) ring ([] ∷ segs) l h = absurd h
  extend-IsChain (suc fuel) ring ((p ∷ ps) ∷ segs) l (e, starts, h) =
      extend_step fuel ring ((p ∷ ps) ∷ segs) ps segs e
        (find_join-StartsAt p ps segs (back ring) starts)
      ∙ extend-IsChain fuel (ring ++ ps) segs (omega arith) h

  -- The rings that come of the points of a chain.
  pub data Outcome : Ring → List Ring → Type 0 where
    closed :
        (p : Point) (ps : List Point)
        → same_point double_eq p (last_of p ps) ≡ true
        → 3 ≤ length ps
        → Outcome (p ∷ ps) ((p ∷ ps) ∷ [])
    closed_short :
        (p : Point) (ps : List Point)
        → same_point double_eq p (last_of p ps) ≡ true
        → length ps < 3
        → Outcome (p ∷ ps) []
    left_open :
        (p : Point) (ps : List Point)
        → same_point double_eq p (last_of p ps) ≡ false
        → 2 ≤ length ps
        → Outcome (p ∷ ps) (((p ∷ ps) ++ (p ∷ [])) ∷ [])
    short :
        (p : Point) (ps : List Point)
        → same_point double_eq p (last_of p ps) ≡ false
        → length ps < 2
        → Outcome (p ∷ ps) []
    no_points : Outcome [] []

  close_ring-Outcome : (ring : Ring) → Outcome ring (push_ring (close_ring double_eq ring) [])
  unfolding close_ring push_ring
  close_ring-Outcome [] = no_points
  close_ring-Outcome (p ∷ ps) = elim (Bool-cases (same_point double_eq p (last_of p ps))) [
    | inl e ↦ elim (Bool-cases (leb 4 (length (p ∷ ps)))) [
      | inl l ↦ rw (e, push_ring, l) (closed p ps e (ground arith))
      | inr l ↦ rw (e, push_ring, l) (closed_short p ps e (ground arith))
    ]
    | inr e ↦
        let more = length-append ps (p ∷ []) in
        elim (Bool-cases (leb 4 (length ((p ∷ ps) ++ (p ∷ []))))) [
          | inl l ↦ rw (e, push_ring, l) (left_open p ps e (ground arith))
          | inr l ↦ rw (e, push_ring, l) (short p ps e (ground arith))
        ]
  ]

  -- Of a chain of segments `stitchRings` makes the points of all segments in their order, those where
  -- two meet once. If these end where they begin they are the only ring, with four points or more;
  -- otherwise, with three points or more, they are it with a straight edge back to the first point.
  -- With fewer points there is no ring.
  pub stitch_rings-IsChain :
      (seg : Segment) (segs : List Segment)
      → IsChain seg segs
      → (rings : List Ring) × (stitch_rings double_eq (seg ∷ segs) ≡ done rings)
        × Outcome (chain seg segs) rings
  unfolding stitch_rings stitch
  stitch_rings-IsChain seg segs h = (
    push_ring (close_ring double_eq (chain seg segs)) [],
    rw (extend-IsChain (suc (length segs)) seg segs (omega arith) h),
    close_ring-Outcome (chain seg segs),
  )
