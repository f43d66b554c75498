-- ===== src/Rings/Sound.antt =====
-- The rings: that the loops end, and what the rings are.
use gpsxdb.Prelude.{
  ℕ, zero, suc, ◌-◌, ◌≤◌, ◌<◌, ◌≡◌, refl, Bool, true, false, leb, Bool-cases, inl, inr, List, [],
  ◌∷◌, ◌++◌, length, drop, get_or, some, All, All-append, arith,
}
use gpsxdb.Bytes.{Double}
use gpsxdb.Wkb.Geometry.{Point}
use gpsxdb.Wkb.Encode.{is_ring}
use gpsxdb.Rings.{
  Ring, Segment, Stitched, done, undefined, out_of_fuel, ◌>>=◌, last_of, back, reverse, Join,
  joined, no_join, bad_access, skip, same_point, find_join, extend, close_ring, push_ring, stitch,
  stitch_rings,
}

abbrev pub HasPoint : List Point → Type 0
HasPoint [] = ⊥
HasPoint (p ∷ ps) = Unit

get_or-last_of :
    (p : Point) (ps : List Point) (d : Point) → get_or (p ∷ ps) (length ps) d ≡ last_of p ps
unfolding last_of
get_or-last_of p [] d = refl
get_or-last_of p (q ∷ ps) d = get_or-last_of q ps d

last_of-append : (p q : Point) (ps : List Point) → last_of p (ps ++ (q ∷ [])) ≡ q
unfolding last_of
last_of-append p q [] = refl
last_of-append p q (r ∷ ps) = last_of-append r q ps

append-HasPoint : (ring ps : List Point) → HasPoint ring → HasPoint (ring ++ ps)
append-HasPoint [] ps h = absurd h
append-HasPoint (p ∷ ring) ps h = tt

closed :
    (double_eq : Double → Double → Bool) (p : Point) (ps : List Point)
    → leb 4 (length (p ∷ ps)) ≡ true
    → same_point double_eq p (last_of p ps) ≡ true
    → is_ring double_eq (p ∷ ps) ≡ true
unfolding is_ring same_point
closed double_eq p ps long e =
    let n : length (p ∷ ps) - 1 ≡ length ps = omega arith in
    rw (n, get_or-last_of p ps (0, 0), long, e)

module _ (P : Point → Type 0) where
  abbrev pub IsSegment : Segment → Type 0
  IsSegment seg = HasPoint seg × All P seg

  All-reverse : (ps : List Point) → All P ps → All P (reverse ps)
  unfolding reverse
  All-reverse [] h = tt
  All-reverse (p ∷ ps) h = All-append P (reverse ps) (p ∷ []) (All-reverse ps h.1) (h.0, tt)

  All-drop_one : (ps : List Point) → All P ps → All P (drop 1 ps)
  All-drop_one [] h = tt
  All-drop_one (p ∷ ps) h = h.1

  -- With `n` segments.
  abbrev IsJoin : ℕ → Join → Type 0
  IsJoin n (joined ps rest) = All P ps × All IsSegment rest × (n ≡ suc (length rest))
  IsJoin n no_join = Unit
  IsJoin n bad_access = ⊥

  skip-IsJoin :
      (n : ℕ) (seg : Segment) (j : Join) → IsSegment seg → IsJoin n j → IsJoin (suc n) (skip seg j)
  skip-IsJoin n seg (joined ps rest) s (h, k, e) = (h, (s, k), omega arith)
  skip-IsJoin n seg no_join s h = tt
  skip-IsJoin n seg bad_access s h = h

  abbrev IsExtended : ℕ → Stitched (Ring × List Segment) → Type 0
  IsExtended n (done (ring, rest)) =
      HasPoint ring × All P ring × All IsSegment rest × (length rest ≤ n)
  IsExtended n undefined = ⊥
  IsExtended n out_of_fuel = ⊥

  weaken : (m n : ℕ) (o : Stitched (Ring × List Segment)) → IsExtended m o → m ≤ n → IsExtended n o
  weaken m n (done (ring, rest)) (has, h, k, l) le = (has, h, k, omega arith)
  weaken m n undefined h le = h
  weaken m n out_of_fuel h le = h

  module _ (double_eq : Double → Double → Bool) where
    find_join-IsJoin :
        (b : Point) (segs : List Segment)
        → All IsSegment segs
        → IsJoin (length segs) (find_join double_eq (some b) segs)
    unfolding find_join
    find_join-IsJoin b [] h = tt
    find_join-IsJoin b ([] ∷ segs) h = absurd h.0.0
    find_join-IsJoin b ((p ∷ ps) ∷ segs) h = elim (Bool-cases (same_point double_eq p b)) [
      | inl e ↦ rw e (h.0.1.1, h.1, refl)
      | inr e ↦ elim (Bool-cases (same_point double_eq (last_of p ps) b)) [
        | inl k ↦
            rw (e, k) (All-drop_one (reverse (p ∷ ps)) (All-reverse (p ∷ ps) h.0.1), h.1, refl)
        | inr k ↦
            rw (e, k)
              (skip-IsJoin (length segs) (p ∷ ps) (find_join double_eq (some b) segs) h.0
                (find_join-IsJoin b segs h.1))
      ]
    ]

    extend_from :
        (fuel : ℕ) (ring : Ring) (segs : List Segment) (j : Join)
        → IsJoin (length segs) j
        → IsExtended (length segs) (done (ring, segs))
        → ((ps : List Point) (rest : List Segment)
            → All P ps
            → All IsSegment rest
            → length segs ≡ suc (length rest)
            → IsExtended (length rest) (extend double_eq fuel (ring ++ ps) rest))
        → IsExtended (length segs) (elim j [
          | no_join ↦ done (ring, segs)
          | bad_access ↦ undefined
          | joined ps rest ↦ extend double_eq fuel (ring ++ ps) rest
        ])
    extend_from fuel ring segs (joined ps rest) (h, k, e) stop go =
        weaken (length rest) (length segs) (extend double_eq fuel (ring ++ ps) rest)
          (go ps rest h k e) (omega arith)
    extend_from fuel ring segs no_join h stop go = stop
    extend_from fuel ring segs bad_access h stop go = absurd h

    extend_unless :
        (b : Bool) (n : ℕ) (o o' : Stitched (Ring × List Segment))
        → IsExtended n o
        → IsExtended n o'
        → IsExtended n (elim b [ true ↦ o | false ↦ o' ])
    extend_unless true n o o' h k = h
    extend_unless false n o o' h k = k

    extend-IsExtended :
        (fuel : ℕ) (ring : Ring) (segs : List Segment)
        → length segs < fuel
        → HasPoint ring
        → All P ring
        → All IsSegment segs
        → IsExtended (length segs) (extend double_eq fuel ring segs)
    unfolding extend back
    extend-IsExtended zero ring segs l has h k = absurd (omega arith)
    extend-IsExtended (suc fuel) [] segs l has h k = absurd has
    extend-IsExtended (suc fuel) (p ∷ ps) segs l has h k =
        let stop : IsExtended (length segs) (done (p ∷ ps, segs)) = (tt, h, k, omega arith) in
        extend_unless (is_ring double_eq (p ∷ ps)) (length segs) (done (p ∷ ps, segs)) _ stop (
          extend_from fuel (p ∷ ps) segs (find_join double_eq (some (last_of p ps)) segs)
            (find_join-IsJoin (last_of p ps) segs k) stop
            (λ qs rest hq hr n.
              extend-IsExtended fuel ((p ∷ ps) ++ qs) rest (omega arith) tt
                (All-append P (p ∷ ps) qs h hq) hr))

    -- A ring as `buildWayGeom` tests it, of such points.
    abbrev pub IsClosedRing : Ring → Type 0
    IsClosedRing ring = (is_ring double_eq ring ≡ true) × All P ring

    close_ring-IsClosedRing :
        (ring : Ring)
        → ((p : Point) → P p → same_point double_eq p p ≡ true)
        → All P ring
        → leb 4 (length (close_ring double_eq ring)) ≡ true
        → IsClosedRing (close_ring double_eq ring)
    unfolding close_ring
    close_ring-IsClosedRing [] r h long = absurd (ground (arith, long))
    close_ring-IsClosedRing (p ∷ ps) r h long =
        elim (Bool-cases (same_point double_eq p (last_of p ps))) [
          | inl e ↦ rw e (closed double_eq p ps (rw e at long) e, h)
          | inr e ↦ rw e (
            closed double_eq p (ps ++ (p ∷ [])) (rw e at long)
                (rw (last_of-append p p ps) (r p h.0)),
            All-append P (p ∷ ps) (p ∷ []) h (h.0, tt),
          )
        ]

    abbrev IsStitched : Stitched (List Ring) → Type 0
    IsStitched (done rings) = All IsClosedRing rings
    IsStitched undefined = ⊥
    IsStitched out_of_fuel = ⊥

    module _ (reflexive : (p : Point) → P p → same_point double_eq p p ≡ true) where
      push_ring-IsStitched :
          (ring : Ring) (rings : List Ring)
          → All P ring
          → All IsClosedRing rings
          → All IsClosedRing (push_ring (close_ring double_eq ring) rings)
      unfolding push_ring
      push_ring-IsStitched ring rings h k =
          elim (Bool-cases (leb 4 (length (close_ring double_eq ring)))) [
            | inl e ↦ rw e (close_ring-IsClosedRing ring reflexive h e, k)
            | inr e ↦ rw e k
          ]

      push_onto :
          (ring : Ring) (o : Stitched (List Ring))
          → All P ring
          → IsStitched o
          → IsStitched (o >>= λ rings. done (push_ring (close_ring double_eq ring) rings))
      push_onto ring (done rings) h k = push_ring-IsStitched ring rings h k
      push_onto ring undefined h k = k
      push_onto ring out_of_fuel h k = k

      stitch_from :
          (fuel : ℕ) (n : ℕ) (o : Stitched (Ring × List Segment))
          → IsExtended n o
          → ((rest : List Segment)
              → All IsSegment rest
              → length rest ≤ n
              → IsStitched (stitch double_eq fuel rest))
          → IsStitched (
              o >>= λ (ring, rest). stitch double_eq fuel rest >>= λ rings.
              done (push_ring (close_ring double_eq ring) rings))
      stitch_from fuel n (done (ring, rest)) (has, h, k, l) go =
          push_onto ring (stitch double_eq fuel rest) h (go rest k l)
      stitch_from fuel n undefined h go = absurd h
      stitch_from fuel n out_of_fuel h go = absurd h

      stitch-IsStitched :
          (fuel : ℕ) (segs : List Segment)
          → length segs < fuel
          → All IsSegment segs
          → IsStitched (stitch double_eq fuel segs)
      unfolding stitch
      stitch-IsStitched zero segs l h = absurd (omega arith)
      stitch-IsStitched (suc fuel) [] l h = tt
      stitch-IsStitched (suc fuel) (seg ∷ segs) l h =
          stitch_from fuel (length segs) (extend double_eq (suc (length segs)) seg segs)
            (extend-IsExtended (suc (length segs)) seg segs (omega arith) h.0.0 h.0.1 h.1)
            (λ rest k m. stitch-IsStitched fuel rest (omega arith) k)

result :
    (P : Point → Type 0) (double_eq : Double → Double → Bool) (o : Stitched (List Ring))
    → IsStitched P double_eq o
    → (rings : List Ring) × (o ≡ done rings) × All (IsClosedRing P double_eq) rings
result P double_eq (done rings) h = (rings, refl, h)
result P double_eq undefined h = absurd h
result P double_eq out_of_fuel h = absurd h

-- Of segments that all have a point, `stitchRings` ends, and makes rings of at least four points,
-- the first of which equals the last, and all of which have any property that all points of the
-- segments have; if a point with this property, which is then no NaN, equals itself.
pub stitch_rings-IsClosedRing :
    (P : Point → Type 0) (double_eq : Double → Double → Bool) (segs : List Segment)
    → ((p : Point) → P p → same_point double_eq p p ≡ true)
    → All (IsSegment P) segs
    → (rings : List Ring) × (stitch_rings double_eq segs ≡ done rings)
      × All (IsClosedRing P double_eq) rings
unfolding stitch_rings
stitch_rings-IsClosedRing P double_eq segs r h =
    result P double_eq (stitch double_eq (suc (length segs)) segs)
      (stitch-IsStitched P double_eq r (suc (length segs)) segs (omega arith) h)
