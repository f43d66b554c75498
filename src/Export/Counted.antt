-- ===== src/Export/Counted.antt =====
-- The rows that the merged files hold of a table, by the number of those that a test passes.
use gpsxdb.Prelude.{
  ℕ, zero, suc, ◌+◌, ◌≡◌, refl, sym, ◌∙◌, ap, Bool, true, false, ◌&&◌, if◌then◌else◌, Bool-cases,
  inl, inr, List, [], ◌∷◌, ◌++◌, All, arith,
}
use gpsxdb.Prelude.Int.{ℤ, eqb_ℤ, eqb_ℤ-eq}
use gpsxdb.Wkb.Geometry.{Geom}
use gpsxdb.Export.{Row, between, filter, merge_chunks}
use gpsxdb.Export.Lookup.{DiffersFrom, IsKeyed, is_matched}
use gpsxdb.Export.Windows.{tally, tally-cong, tally-none}

abbrev pub count : (Row → Bool) → List Row → ℕ
count test [] = 0
count test (r ∷ rs) = (if test r then 1 else 0) + count test rs

count-++ : (test : Row → Bool) (l r : List Row) → count test (l ++ r) ≡ count test l + count test r
count-++ test [] r = omega arith
count-++ test (x ∷ l) r = rw (count-++ test l r) (omega arith)

pub count-cong :
    (f g : Row → Bool) (rows : List Row) → ((r : Row) → f r ≡ g r) → count f rows ≡ count g rows
count-cong f g [] h = refl
count-cong f g (r ∷ rs) h = rw (h r, count-cong f g rs h) refl

pub count-none : (f : Row → Bool) (rows : List Row) → ((r : Row) → f r ≡ false) → count f rows ≡ 0
count-none f [] h = refl
count-none f (r ∷ rs) h = rw (h r, count-none f rs h) refl

pub count-filter :
    (test p : Row → Bool) (rows : List Row)
    → count test (filter p rows) ≡ count (λ r. p r && test r) rows
count-filter test p [] = refl
count-filter test p (r ∷ rs) = elim (Bool-cases (p r)) [
  | inl e ↦ rw (e, count-filter test p rs) refl
  | inr e ↦ rw (e, count-filter test p rs) (omega arith)
]

-- The sum, over the rows, of the number of the chunks that select the row.
abbrev total : (ℕ → Row → Bool) → List Row → ℕ → ℕ → ℕ
total sel [] k ci = 0
total sel (r ∷ rs) k ci = tally (λ i. sel i r) k ci + total sel rs k ci

total-zero : (sel : ℕ → Row → Bool) (rows : List Row) (ci : ℕ) → total sel rows 0 ci ≡ 0
total-zero sel [] ci = refl
total-zero sel (r ∷ rs) ci = rw (total-zero sel rs ci) refl

total-suc :
    (sel : ℕ → Row → Bool) (rows : List Row) (k ci : ℕ)
    → total sel rows (suc k) ci ≡ count (sel ci) rows + total sel rows k (ci + 1)
total-suc sel [] k ci = refl
total-suc sel (r ∷ rs) k ci = rw (total-suc sel rs k ci) (omega arith)

pub count-merge_chunks :
    (test : Row → Bool) (chunk : ℕ → List Row) (sel : ℕ → Row → Bool) (rows : List Row)
    → ((i : ℕ) → count test (chunk i) ≡ count (sel i) rows)
    → (k ci : ℕ) → count test (merge_chunks chunk k ci) ≡ total sel rows k ci
unfolding merge_chunks
count-merge_chunks test chunk sel rows h zero ci = sym (total-zero sel rows ci)
count-merge_chunks test chunk sel rows h (suc k) ci =
    count-++ test (chunk ci) (merge_chunks chunk k (ci + 1))
    ∙ rw (h ci, count-merge_chunks test chunk sel rows h k (ci + 1), total-suc sel rows k ci) refl

pub total-count :
    (sel : ℕ → Row → Bool) (goal : Row → Bool) (rows : List Row) (k ci : ℕ)
    → All (λ r. tally (λ i. sel i r) k ci ≡ (if goal r then 1 else 0)) rows
    → total sel rows k ci ≡ count goal rows
total-count sel goal [] k ci h = refl
total-count sel goal (r ∷ rs) k ci (h, hs) = rw (h, total-count sel goal rs k ci hs) refl

abbrev pub IsWithin : ℤ → ℤ → Row → Type 0
IsWithin min_id max_id p = between min_id max_id p.id ≡ true

All-filter :
    (P : Row → Type 0) (p : Row → Bool) (rows : List Row) → All P rows → All P (filter p rows)
All-filter P p [] h = tt
All-filter P p (r ∷ rs) (h, hs) = elim (Bool-cases (p r)) [
  | inl e ↦ rw e (h, All-filter P p rs hs)
  | inr e ↦ rw e (All-filter P p rs hs)
]

pub filter-IsKeyed : (p : Row → Bool) (rows : List Row) → IsKeyed rows → IsKeyed (filter p rows)
filter-IsKeyed p [] h = tt
filter-IsKeyed p (r ∷ rs) (h, hs) = elim (Bool-cases (p r)) [
  | inl e ↦ rw e (All-filter (DiffersFrom r) p rs h, filter-IsKeyed p rs hs)
  | inr e ↦ rw e (filter-IsKeyed p rs hs)
]

-- A test that a chunk makes for the ids of its window is true in as many chunks as the id is in.
pub tally-and :
    (w : ℕ → Bool) (b : Bool) (k ci : ℕ)
    → tally w k ci ≡ 1
    → tally (λ i. w i && b) k ci ≡ (if b then 1 else 0)
tally-and w true k ci h = tally-cong (λ i. w i && true) w k ci (λ i. ground arith) ∙ h
tally-and w false k ci h = tally-none (λ i. w i && false) k ci (λ i. ground arith)

module _ (regions : List (Geom → Bool)) (ri : ℕ) where
  pub is_matched-filter :
      (w : ℤ → Bool) (ps : List Row) (id : ℤ)
      → w id ≡ true
      → is_matched regions ri (filter (λ r. w r.id) ps) id ≡ is_matched regions ri ps id
  is_matched-filter w [] id h = refl
  is_matched-filter w (p ∷ ps) id h = elim (Bool-cases (eqb_ℤ p.id id)) [
    | inl e ↦
        let same : w p.id ≡ true = ap w (eqb_ℤ-eq p.id id e) ∙ h in
        rw (same, is_matched-filter w ps id h) refl
    | inr e ↦ elim (Bool-cases (w p.id)) [
      | inl f ↦ rw (f, e, is_matched-filter w ps id h) refl
      | inr f ↦ rw (f, e, is_matched-filter w ps id h) refl
    ]
  ]

  pub is_matched-outside :
      (min_id max_id : ℤ) (ps : List Row) (id : ℤ)
      → All (IsWithin min_id max_id) ps
      → between min_id max_id id ≡ false
      → is_matched regions ri ps id ≡ false
  is_matched-outside min_id max_id [] id h e = refl
  is_matched-outside min_id max_id (p ∷ ps) id (h, hs) e = elim (Bool-cases (eqb_ℤ p.id id)) [
    | inl f ↦
        let inside : between min_id max_id id ≡ true = rw (← eqb_ℤ-eq p.id id f) h in
        let clash : true ≡ false = sym inside ∙ e in cc
    | inr f ↦ rw (f, is_matched-outside min_id max_id ps id hs e) refl
  ]
