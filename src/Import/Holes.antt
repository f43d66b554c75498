-- ===== src/Import/Holes.antt =====
-- Which inner rings `buildMultipolygon` of src/main.cpp makes holes of an outer ring.
use gpsxdb.Prelude.{
  ◌≡◌, refl, ◌∙◌, ap, Bool, true, false, ◌&&◌, ◌||◌, if◌then◌else◌, Bool-cases, inl, inr, List, [],
  ◌∷◌, All, arith,
}
use gpsxdb.Prelude.Int.{ℤ}
use gpsxdb.Bytes.{Double}
use gpsxdb.Wkb.Geometry.{Point, Polygon, Decoded, Outcome, found, nullopt, polygon, multi_polygon}
use gpsxdb.Wkb.Decode.RoundTrip.{with_srid}
use gpsxdb.Rings.{Ring}
use gpsxdb.Import.Multipolygon.{Bounds, widen, is_within, matched_inners}
use gpsxdb.Import.Assembled.{with_holes, shape}

abbrev pub any_point : (Point → Bool) → Ring → Bool
any_point test [] = false
any_point test (p ∷ ps) = test p || any_point test ps

module _ (at_most : Double → Double → Bool) where
  -- In each of the four directions some point of the outer ring lies as far as the first of the inner.
  abbrev pub is_surrounded : Ring → Ring → Bool
  is_surrounded [] outer = false
  is_surrounded (p ∷ ps) outer =
      any_point (λ q. at_most q.0 p.0) outer
      && (any_point (λ q. at_most p.0 q.0) outer
          && (any_point (λ q. at_most q.1 p.1) outer && any_point (λ q. at_most p.1 q.1) outer))

  abbrev pub holes : Ring → List Ring → List Ring
  holes outer [] = []
  holes outer (inner ∷ inners) =
      let rest = holes outer inners in if is_surrounded inner outer then inner ∷ rest else rest

  abbrev pub with_surrounded : List Ring → List Ring → List Polygon
  with_surrounded [] inners = []
  with_surrounded (outer ∷ outers) inners =
      record { outer = outer; inners = holes outer inners } ∷ with_surrounded outers inners

  -- What is stored of outer and inner rings.
  abbrev pub stored : ℤ → List Ring → List Ring → Outcome Decoded
  stored srid [] inners = nullopt
  stored srid (outer ∷ []) inners =
      found (with_srid srid (polygon (record { outer = outer; inners = inners })))
  stored srid (outer ∷ outer' ∷ outers) inners =
      found (with_srid srid (multi_polygon (with_surrounded (outer ∷ outer' ∷ outers) inners)))

-- The comparisons of doubles: a double that equals itself is no NaN.
pub record IsOrder (double_eq less at_most : Double → Double → Bool) : Type 0 where
  pub less-at_most : (x y : Double) → less x y ≡ true → at_most x y ≡ true
  pub at_most_trans :
      (x y z : Double) → at_most x y ≡ true → at_most y z ≡ true → at_most x z ≡ true
  pub not_less :
      (x y : Double)
      → double_eq x x ≡ true
      → double_eq y y ≡ true
      → less x y ≡ false
      → at_most y x ≡ true

or_right : (a b : Bool) → (a ≡ true → b ≡ true) → b ≡ (a || b)
or_right true true h = refl
or_right true false h = h refl
or_right false b h = refl

or_left : (a b : Bool) → (b ≡ true → a ≡ true) → a ≡ (a || b)
or_left true b h = refl
or_left false true h = h refl
or_left false false h = refl

or_next : (a b c : Bool) → ((a || b) || c) ≡ (a || (b || c))
or_next a b c = ground arith

or_twice : (a b : Bool) → (a || (a || b)) ≡ (a || b)
or_twice a b = ground arith

module _ (double_eq less at_most : Double → Double → Bool)
    (order : IsOrder double_eq less at_most) where
  abbrev IsReal : Double → Type 0
  IsReal x = double_eq x x ≡ true

  module _ (side : Point → Double) where
    abbrev lower : Double → List Point → Double
    lower o [] = o
    lower o (p ∷ ps) = lower (if less (side p) o then side p else o) ps

    abbrev upper : Double → List Point → Double
    upper o [] = o
    upper o (p ∷ ps) = upper (if less o (side p) then side p else o) ps

    lower_step :
        (x o z : Double)
        → IsReal x
        → IsReal o
        → at_most (if less x o then x else o) z ≡ (at_most o z || at_most x z)
    lower_step x o z h k = elim (Bool-cases (less x o)) [
      | inl e ↦ rw e (
          or_right (at_most o z) (at_most x z)
            (λ l. order.at_most_trans x o z (order.less-at_most x o e) l))
      | inr e ↦ rw e (
          or_left (at_most o z) (at_most x z)
            (λ l. order.at_most_trans o x z (order.not_less x o h k e) l))
    ]

    upper_step :
        (x o z : Double)
        → IsReal x
        → IsReal o
        → at_most z (if less o x then x else o) ≡ (at_most z o || at_most z x)
    upper_step x o z h k = elim (Bool-cases (less o x)) [
      | inl e ↦ rw e (
          or_right (at_most z o) (at_most z x)
            (λ l. order.at_most_trans z o x l (order.less-at_most o x e)))
      | inr e ↦ rw e (
          or_left (at_most z o) (at_most z x)
            (λ l. order.at_most_trans z x o l (order.not_less o x k h e)))
    ]

    either_IsReal : (b : Bool) (x o : Double) → IsReal x → IsReal o → IsReal (if b then x else o)
    either_IsReal true x o h k = h
    either_IsReal false x o h k = k

    lower-any_point :
        (o z : Double) (ps : List Point)
        → IsReal o
        → All (λ p. IsReal (side p)) ps
        → at_most (lower o ps) z ≡ (at_most o z || any_point (λ p. at_most (side p) z) ps)
    lower-any_point o z [] k h = ground arith
    lower-any_point o z (p ∷ ps) k (h, hs) =
        lower-any_point (if less (side p) o then side p else o) z ps
          (either_IsReal (less (side p) o) (side p) o h k) hs
        ∙ ap (λ b. b || any_point (λ q. at_most (side q) z) ps) (lower_step (side p) o z h k)
        ∙ or_next (at_most o z) (at_most (side p) z) (any_point (λ q. at_most (side q) z) ps)

    upper-any_point :
        (o z : Double) (ps : List Point)
        → IsReal o
        → All (λ p. IsReal (side p)) ps
        → at_most z (upper o ps) ≡ (at_most z o || any_point (λ p. at_most z (side p)) ps)
    upper-any_point o z [] k h = ground arith
    upper-any_point o z (p ∷ ps) k (h, hs) =
        upper-any_point (if less o (side p) then side p else o) z ps
          (either_IsReal (less o (side p)) (side p) o h k) hs
        ∙ ap (λ b. b || any_point (λ q. at_most z (side q)) ps) (upper_step (side p) o z h k)
        ∙ or_next (at_most z o) (at_most z (side p)) (any_point (λ q. at_most z (side q)) ps)

  widen-parts :
      (b : Bounds) (ps : List Point)
      → widen less at_most b ps ≡ record {
        ox0 = lower (λ p. p.0) b.ox0 ps;
        ox1 = upper (λ p. p.0) b.ox1 ps;
        oy0 = lower (λ p. p.1) b.oy0 ps;
        oy1 = upper (λ p. p.1) b.oy1 ps;
      }
  unfolding widen
  widen-parts b [] = refl
  widen-parts b ((x, y) ∷ ps) =
      widen-parts
        (record {
          ox0 = if less x b.ox0 then x else b.ox0;
          ox1 = if less b.ox1 x then x else b.ox1;
          oy0 = if less y b.oy0 then y else b.oy0;
          oy1 = if less b.oy1 y then y else b.oy1;
        })
        ps

  abbrev pub IsRealPoint : Point → Type 0
  IsRealPoint p = IsReal p.0 × IsReal p.1

  All-x : (ps : List Point) → All IsRealPoint ps → All (λ p. IsReal p.0) ps
  All-x [] h = tt
  All-x (p ∷ ps) (h, hs) = (h.0, All-x ps hs)

  All-y : (ps : List Point) → All IsRealPoint ps → All (λ p. IsReal p.1) ps
  All-y [] h = tt
  All-y (p ∷ ps) (h, hs) = (h.1, All-y ps hs)

  is_within-is_surrounded :
      (inner outer : Ring)
      → All IsRealPoint outer
      → is_within less at_most inner outer ≡ is_surrounded at_most inner outer
  unfolding is_within
  is_within-is_surrounded [] outer h = refl
  is_within-is_surrounded (p ∷ ps) [] h = refl
  is_within-is_surrounded ((ix, iy) ∷ ps) ((x, y) ∷ qs) h =
      let outer = (x, y) ∷ qs in
      let xs = All-x outer h in
      let ys = All-y outer h in
      rw
        (
          widen-parts (record { ox0 = x; ox1 = x; oy0 = y; oy1 = y }) outer,
          lower-any_point (λ p. p.0) x ix outer h.0.0 xs,
          upper-any_point (λ p. p.0) x ix outer h.0.0 xs,
          lower-any_point (λ p. p.1) y iy outer h.0.1 ys,
          upper-any_point (λ p. p.1) y iy outer h.0.1 ys,
          or_twice (at_most x ix) (any_point (λ q. at_most q.0 ix) qs),
          or_twice (at_most ix x) (any_point (λ q. at_most ix q.0) qs),
          or_twice (at_most y iy) (any_point (λ q. at_most q.1 iy) qs),
          or_twice (at_most iy y) (any_point (λ q. at_most iy q.1) qs),
        )
        refl

  matched_inners-holes :
      (outer : Ring) (inners : List Ring)
      → All IsRealPoint outer
      → matched_inners less at_most outer inners ≡ holes at_most outer inners
  unfolding matched_inners
  matched_inners-holes outer [] h = refl
  matched_inners-holes outer (inner ∷ inners) h =
      rw (is_within-is_surrounded inner outer h, matched_inners-holes outer inners h) refl

  with_holes-with_surrounded :
      (outers inners : List Ring)
      → All (All IsRealPoint) outers
      → with_holes less at_most outers inners ≡ with_surrounded at_most outers inners
  with_holes-with_surrounded [] inners h = refl
  with_holes-with_surrounded (outer ∷ outers) inners (h, hs) =
      rw (matched_inners-holes outer inners h, with_holes-with_surrounded outers inners hs) refl

  pub shape-stored :
      (srid : ℤ) (outers inners : List Ring)
      → All (All IsRealPoint) outers
      → shape less at_most srid outers inners ≡ stored at_most srid outers inners
  shape-stored srid [] inners h = refl
  shape-stored srid (outer ∷ []) inners h = refl
  shape-stored srid (outer ∷ outer' ∷ outers) inners h =
      ap (λ ps. found (with_srid srid (multi_polygon ps)))
        (with_holes-with_surrounded (outer ∷ outer' ∷ outers) inners h)
