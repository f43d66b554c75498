-- ===== src/Rings/Size.antt =====
-- How long the rings are, and how many.
use gpsxdb.Prelude.{
  ℕ, zero, suc, ◌+◌, ◌≤◌, ◌<◌, ◌≡◌, refl, Bool, true, false, leb, Bool-cases, inl, inr, List, [],
  ◌∷◌, ◌++◌, length, length-append, drop, none, some, All, arith,
}
use gpsxdb.Bytes.{Double}
use gpsxdb.Wkb.Geometry.{Point}
use gpsxdb.Wkb.Encode.{is_ring}
use gpsxdb.Rings.{
  Ring, Segment, Stitched, done, undefined, out_of_fuel, ◌>>=◌, last_of, back, reverse, Join,
  joined, no_join, bad_access, skip, same_point, find_join, extend, close_ring, push_ring, stitch,
  stitch_rings,
}

-- The points of all segments, and the segments.
abbrev pub total : List Segment → ℕ
total [] = 0
total (seg ∷ segs) = suc (length seg) + total segs

length-reverse : (ps : List Point) → length (reverse ps) ≡ length ps
unfolding reverse
length-reverse [] = refl
length-reverse (p ∷ ps) = omega (arith, length-append (reverse ps) (p ∷ []), length-reverse ps)

length-drop_one : (ps : List Point) → length (drop 1 ps) ≤ length ps
length-drop_one [] = omega arith
length-drop_one (p ∷ ps) = omega arith

abbrev FitsJoin : ℕ → Join → Type 0
FitsJoin n (joined ps rest) = length ps + total rest ≤ n
FitsJoin n no_join = Unit
FitsJoin n bad_access = Unit

skip-FitsJoin :
    (n : ℕ) (seg : Segment) (j : Join) → FitsJoin n j → FitsJoin (suc (length seg) + n) (skip seg j)
skip-FitsJoin n seg (joined ps rest) h = omega arith
skip-FitsJoin n seg no_join h = tt
skip-FitsJoin n seg bad_access h = tt

abbrev FitsExtended : ℕ → Stitched (Ring × List Segment) → Type 0
FitsExtended n (done (ring, rest)) = length ring + total rest ≤ n
FitsExtended n undefined = Unit
FitsExtended n out_of_fuel = Unit

-- Of at most `n` points in all: each ring has one more at most.
abbrev pub FitsStitched : ℕ → Stitched (List Ring) → Type 0
FitsStitched n (done rings) = (length rings ≤ n) × All (λ r. length r ≤ suc n) rings
FitsStitched n undefined = Unit
FitsStitched n out_of_fuel = Unit

module _ (double_eq : Double → Double → Bool) where
  find_join-FitsJoin :
      (b : Point) (segs : List Segment) → FitsJoin (total segs) (find_join double_eq (some b) segs)
  unfolding find_join
  find_join-FitsJoin b [] = tt
  find_join-FitsJoin b ([] ∷ segs) =
      skip-FitsJoin (total segs) [] (find_join double_eq (some b) segs) (find_join-FitsJoin b segs)
  find_join-FitsJoin b ((p ∷ ps) ∷ segs) = elim (Bool-cases (same_point double_eq p b)) [
    | inl e ↦ rw e (omega arith)
    | inr e ↦ elim (Bool-cases (same_point double_eq (last_of p ps) b)) [
      | inl k ↦
          rw (e, k) (omega (arith, length-drop_one (reverse (p ∷ ps)), length-reverse (p ∷ ps)))
      | inr k ↦
          rw (e, k)
            (skip-FitsJoin (total segs) (p ∷ ps) (find_join double_eq (some b) segs)
              (find_join-FitsJoin b segs))
    ]
  ]

  -- Nothing joins an empty ring.
  abbrev IsUnjoined : Join → Type 0
  IsUnjoined (joined ps rest) = ⊥
  IsUnjoined no_join = Unit
  IsUnjoined bad_access = Unit

  skip-IsUnjoined : (j : Join) → IsUnjoined j → IsUnjoined (skip [] j)
  skip-IsUnjoined (joined ps rest) h = h
  skip-IsUnjoined no_join h = h
  skip-IsUnjoined bad_access h = h

  unjoined-FitsJoin : (j : Join) (n : ℕ) → IsUnjoined j → FitsJoin n j
  unjoined-FitsJoin (joined ps rest) n h = absurd h
  unjoined-FitsJoin no_join n h = tt
  unjoined-FitsJoin bad_access n h = tt

  find_join-none : (segs : List Segment) → IsUnjoined (find_join double_eq none segs)
  unfolding find_join
  find_join-none [] = tt
  find_join-none ([] ∷ segs) = skip-IsUnjoined (find_join double_eq none segs) (find_join-none segs)
  find_join-none ((p ∷ ps) ∷ segs) = tt

  find_join-back :
      (ring : Ring) (segs : List Segment)
      → FitsJoin (total segs) (find_join double_eq (back ring) segs)
  unfolding back
  find_join-back [] segs =
      unjoined-FitsJoin (find_join double_eq none segs) (total segs) (find_join-none segs)
  find_join-back (p ∷ ps) segs = find_join-FitsJoin (last_of p ps) segs

  extend_from :
      (fuel : ℕ) (ring : Ring) (segs : List Segment) (n : ℕ) (j : Join)
      → length ring + total segs ≤ n
      → FitsJoin (total segs) j
      → ((ps : List Point) (rest : List Segment)
          → length (ring ++ ps) + total rest ≤ n
          → FitsExtended n (extend double_eq fuel (ring ++ ps) rest))
      → FitsExtended n (elim j [
        | no_join ↦ done (ring, segs)
        | bad_access ↦ undefined
        | joined ps rest ↦ extend double_eq fuel (ring ++ ps) rest
      ])
  extend_from fuel ring segs n (joined ps rest) l h go =
      go ps rest (omega (arith, length-append ring ps))
  extend_from fuel ring segs n no_join l h go = l
  extend_from fuel ring segs n bad_access l h go = tt

  extend_unless :
      (b : Bool) (n : ℕ) (o o' : Stitched (Ring × List Segment))
      → FitsExtended n o
      → FitsExtended n o'
      → FitsExtended n (elim b [ true ↦ o | false ↦ o' ])
  extend_unless true n o o' h k = h
  extend_unless false n o o' h k = k

  extend-FitsExtended :
      (fuel : ℕ) (ring : Ring) (segs : List Segment) (n : ℕ)
      → length ring + total segs ≤ n
      → FitsExtended n (extend double_eq fuel ring segs)
  unfolding extend
  extend-FitsExtended zero ring segs n l = tt
  extend-FitsExtended (suc fuel) ring segs n l =
      extend_unless (is_ring double_eq ring) n (done (ring, segs)) _ l (
        extend_from fuel ring segs n (find_join double_eq (back ring) segs) l
          (find_join-back ring segs) (λ ps rest m. extend-FitsExtended fuel (ring ++ ps) rest n m))

  length-close_ring : (ring : Ring) → length (close_ring double_eq ring) ≤ suc (length ring)
  unfolding close_ring
  length-close_ring [] = omega arith
  length-close_ring (p ∷ ps) = elim (Bool-cases (same_point double_eq p (last_of p ps))) [
    | inl e ↦ rw e (omega arith)
    | inr e ↦ rw e (omega (arith, length-append ps (p ∷ [])))
  ]

  All-weaken :
      (m n : ℕ) (rings : List Ring)
      → m ≤ n
      → All (λ r. length r ≤ suc m) rings
      → All (λ r. length r ≤ suc n) rings
  All-weaken m n [] l h = tt
  All-weaken m n (r ∷ rings) l (h, k) = (omega arith, All-weaken m n rings l k)

  push_onto :
      (ring : Ring) (m n : ℕ) (o : Stitched (List Ring))
      → m < n
      → length ring ≤ n
      → FitsStitched m o
      → FitsStitched n (o >>= λ rings. done (push_ring (close_ring double_eq ring) rings))
  unfolding push_ring
  push_onto ring m n (done rings) l fits (h, k) =
      elim (Bool-cases (leb 4 (length (close_ring double_eq ring)))) [
        | inl e ↦ rw e (
          omega arith,
          (omega (arith, length-close_ring ring), All-weaken m n rings (omega arith) k),
        )
        | inr e ↦ rw e (omega arith, All-weaken m n rings (omega arith) k)
      ]
  push_onto ring m n undefined l fits h = tt
  push_onto ring m n out_of_fuel l fits h = tt

  stitch_from :
      (fuel m n : ℕ) (o : Stitched (Ring × List Segment))
      → m < n
      → FitsExtended m o
      → ((rest : List Segment) → FitsStitched (total rest) (stitch double_eq fuel rest))
      → FitsStitched n (
          o >>= λ (ring, rest). stitch double_eq fuel rest >>= λ rings.
          done (push_ring (close_ring double_eq ring) rings))
  stitch_from fuel m n (done (ring, rest)) l h go =
      push_onto ring (total rest) n (stitch double_eq fuel rest) (omega arith) (omega arith)
        (go rest)
  stitch_from fuel m n undefined l h go = tt
  stitch_from fuel m n out_of_fuel l h go = tt

  stitch-FitsStitched :
      (fuel : ℕ) (segs : List Segment) → FitsStitched (total segs) (stitch double_eq fuel segs)
  unfolding stitch
  stitch-FitsStitched zero segs = tt
  stitch-FitsStitched (suc fuel) [] = (omega arith, tt)
  stitch-FitsStitched (suc fuel) (seg ∷ segs) =
      stitch_from fuel (length seg + total segs) (total (seg ∷ segs))
        (extend double_eq (suc (length segs)) seg segs) (omega arith)
        (extend-FitsExtended (suc (length segs)) seg segs (length seg + total segs) (omega arith))
        (λ rest. stitch-FitsStitched fuel rest)

  pub stitch_rings-FitsStitched :
      (segs : List Segment) → FitsStitched (total segs) (stitch_rings double_eq segs)
  unfolding stitch_rings
  stitch_rings-FitsStitched segs = stitch-FitsStitched (suc (length segs)) segs
