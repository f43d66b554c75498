-- ===== src/Rings.antt =====
-- `stitchRings` of src/GeoUtils.cpp. A point is a pair of patterns of doubles, and equality of
-- doubles is the parameter `double_eq`. `ring.back()` of an empty ring is undefined behaviour, the
-- value `undefined`. The loops recur on fuel, which `stitch_rings` takes from the number of segments.
pub mod Sound
pub mod Chain
pub mod Size
mod Tests
use gpsxdb.Prelude.{
  ℕ, zero, suc, Bool, true, false, ◌&&◌, leb, if◌then◌else◌, List, [], ◌∷◌, ◌++◌, length, drop,
  Option, none, some,
}
use gpsxdb.Bytes.{Double}
use gpsxdb.Wkb.Geometry.{Point}
use gpsxdb.Wkb.Encode.{is_ring}

abbrev pub Ring : Type 0
Ring = List Point

abbrev pub Segment : Type 0
Segment = List Point

pub data Stitched {ℓ} (A : Type ℓ) : Type ℓ where
  done : A → Stitched A
  undefined : Stitched A
  out_of_fuel : Stitched A

infixl 5 ◌>>=◌
abbrev pub ◌>>=◌ {ℓ κ} : {A : Type ℓ} {B : Type κ} → Stitched A → (A → Stitched B) → Stitched B
done a >>= f = f a
undefined >>= f = undefined
out_of_fuel >>= f = out_of_fuel

-- The last of `p` and the points after it.
pub last_of : Point → List Point → Point
last_of p [] = p
last_of p (q ∷ ps) = last_of q ps

pub back : Ring → Option Point
back [] = none
back (p ∷ ps) = some (last_of p ps)

pub reverse : List Point → List Point
reverse [] = []
reverse (p ∷ ps) = reverse ps ++ (p ∷ [])

-- What the loop over the segments finds: the points to append and the segments that are left.
pub data Join : Type 0 where
  joined : List Point → List Segment → Join
  no_join : Join
  bad_access : Join

abbrev pub skip : Segment → Join → Join
skip seg (joined ps segs) = joined ps (seg ∷ segs)
skip seg no_join = no_join
skip seg bad_access = bad_access

pub push_ring : Ring → List Ring → List Ring
push_ring ring rings = if leb 4 (length ring) then ring ∷ rings else rings

module _ (double_eq : Double → Double → Bool) where
  unfoldable pub same_point : Point → Point → Bool
  same_point p q = double_eq p.0 q.0 && double_eq p.1 q.1

  -- The first segment that begins or ends at the ring's last point.
  pub find_join : Option Point → List Segment → Join
  find_join last [] = no_join
  find_join last ([] ∷ segs) = skip [] (find_join last segs)
  find_join last ((p ∷ ps) ∷ segs) =
      let later = skip (p ∷ ps) (find_join last segs) in
      elim last [
        | none ↦ bad_access
        | some b ↦
            if same_point p b
            then joined ps segs
            else if same_point (last_of p ps) b
            then joined (drop 1 (reverse (p ∷ ps))) segs
            else later
      ]

  -- `while (progress)`.
  pub extend : ℕ → Ring → List Segment → Stitched (Ring × List Segment)
  extend zero ring segs = out_of_fuel
  extend (suc fuel) ring segs = elim (is_ring double_eq ring) [
    | true ↦ done (ring, segs)
    | false ↦ elim (find_join (back ring) segs) [
      | no_join ↦ done (ring, segs)
      | bad_access ↦ undefined
      | joined ps rest ↦ extend fuel (ring ++ ps) rest
    ]
  ]

  pub close_ring : Ring → Ring
  close_ring [] = []
  close_ring (p ∷ ps) = if same_point p (last_of p ps) then p ∷ ps else (p ∷ ps) ++ (p ∷ [])

  -- `while (!segs.empty())`.
  unfoldable pub stitch : ℕ → List Segment → Stitched (List Ring)
  stitch zero segs = out_of_fuel
  stitch (suc fuel) [] = done []
  stitch (suc fuel) (seg ∷ segs) = extend (suc (length segs)) seg segs >>= λ (ring, rest).
      stitch fuel rest >>= λ rings. done (push_ring (close_ring ring) rings)

  unfoldable pub stitch_rings : List Segment → Stitched (List Ring)
  stitch_rings segs = stitch (suc (length segs)) segs
