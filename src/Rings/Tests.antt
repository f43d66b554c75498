-- ===== src/Rings/Tests.antt =====
-- A triangle in two parts, and a line.
use gpsxdb.Prelude.{◌≡◌, refl, Bool, true, List, [], ◌∷◌, ◌==◌, All, arith, ◌<◌, ℕ}
use gpsxdb.Bytes.{Double}
use gpsxdb.Wkb.Geometry.{Point}
use gpsxdb.Wkb.Encode.{is_ring}
use gpsxdb.Rings.{Ring, Segment, done, same_point, stitch_rings, back, last_of}
use gpsxdb.Rings.Sound.{IsClosedRing, stitch_rings-IsClosedRing}
use gpsxdb.Rings.Chain.{IsChain, chain, Outcome, stitch_rings-IsChain}

abbrev eq_bits : Double → Double → Bool
eq_bits x y = x == y

-- The second part is reversed.
abbrev two_parts : List Segment
two_parts = ((1, 1) ∷ (2, 2) ∷ (3, 1) ∷ []) ∷ ((1, 1) ∷ (2, 0) ∷ (3, 1) ∷ []) ∷ []

abbrev IsSmall : Point → Type 0
IsSmall p = (p.0 < 10) × (p.1 < 10)

eq_bits_refl : (n : ℕ) → (n == n) ≡ true
eq_bits_refl n = ground arith

stitch_rings-IsClosedRing_example :
    (rings : List Ring) × (stitch_rings eq_bits two_parts ≡ done rings)
    × All (IsClosedRing IsSmall eq_bits) rings
stitch_rings-IsClosedRing_example =
    stitch_rings-IsClosedRing IsSmall eq_bits two_parts
      (λ p h. unfold same_point in rw (eq_bits_refl p.0, eq_bits_refl p.1))
      (
        (
          tt,
          (
            (omega arith, omega arith),
            ((omega arith, omega arith), ((omega arith, omega arith), tt)),
          ),
        ),
        (
          (
            tt,
            (
              (omega arith, omega arith),
              ((omega arith, omega arith), ((omega arith, omega arith), tt)),
            ),
          ),
          tt,
        ),
      )

abbrev open_line : List Segment
open_line = ((3, 1) ∷ (4, 1) ∷ (4, 2) ∷ []) ∷ []

open_line-IsChain : IsChain eq_bits ((1, 1) ∷ (2, 2) ∷ (3, 1) ∷ []) open_line
unfolding is_ring back last_of same_point
open_line-IsChain = (refl, refl, tt)

-- Five points that do not close.
stitch_rings-IsChain_example :
    (rings : List Ring) × (stitch_rings eq_bits (((1, 1) ∷ (2, 2) ∷ (3, 1) ∷ []) ∷ open_line)
      ≡ done rings)
    × Outcome eq_bits (chain ((1, 1) ∷ (2, 2) ∷ (3, 1) ∷ []) open_line) rings
stitch_rings-IsChain_example =
    stitch_rings-IsChain eq_bits ((1, 1) ∷ (2, 2) ∷ (3, 1) ∷ []) open_line open_line-IsChain
