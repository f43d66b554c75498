-- ===== src/Export/Divided.antt =====
-- `processPair` gives each region the rows that match it, and the tags of those rows.
use gpsxdb.Prelude.{
  ℕ, ◌≡◌, refl, sym, ◌∙◌, Bool, true, false, ◌&&◌, if◌then◌else◌, Bool-cases, inl, inr, List, [],
  ◌∷◌, All, arith,
}
use gpsxdb.Prelude.Int.{ℤ, ltb_ℤ}
use gpsxdb.Wkb.Geometry.{Geom}
use gpsxdb.Export.{
  Row, between, in_window, chunk_count, has_bit, lookup_bitmask, sort, local_map, is_hit,
  window_rows, parent_chunk, child_chunk, merge_chunks, process_pair,
}
use gpsxdb.Export.Lookup.{IsKeyed, is_matched, lookup-is_matched}
use gpsxdb.Export.Counted.{
  count, IsWithin, count-cong, count-none, count-filter, count-merge_chunks, total-count,
  filter-IsKeyed, tally-and, is_matched-filter, is_matched-outside,
}
use gpsxdb.Export.Windows.{tally, tally-none, tally-in_window}

module _ (regions : List (Geom → Bool)) (min_id max_id : ℤ) (threads ri : ℕ)
    (parents : List Row) where
  abbrev window : ℕ → ℤ → Bool
  window ci id = in_window min_id max_id threads ci id

  abbrev chunks : ℕ
  chunks = chunk_count min_id max_id threads

  parent_counts :
      (test : Row → Bool) (rows : List Row)
      → All (IsWithin min_id max_id) rows
      → All
          (λ r.
            tally (λ i. window i r.id && (is_hit regions ri r && test r)) chunks 0
            ≡ (if is_hit regions ri r && test r then 1 else 0))
          rows
  parent_counts test [] h = tt
  parent_counts test (r ∷ rs) (h, hs) = (
    tally-and (λ i. window i r.id) (is_hit regions ri r && test r) chunks 0
        (tally-in_window min_id max_id threads r.id h),
    parent_counts test rs hs,
  )

  parents-count :
      (test : Row → Bool)
      → All (IsWithin min_id max_id) parents
      → count test (merge_chunks (parent_chunk regions min_id max_id threads ri parents) chunks 0)
        ≡ count (λ p. is_hit regions ri p && test p) parents
  parents-count test h =
      count-merge_chunks test (parent_chunk regions min_id max_id threads ri parents)
        (λ i r. window i r.id && (is_hit regions ri r && test r)) parents
        (λ i.
          count-filter test (is_hit regions ri)
            (window_rows regions min_id max_id threads ri i parents)
          ∙ count-filter (λ r. is_hit regions ri r && test r) (λ r. window i r.id) parents)
        chunks 0
      ∙ total-count (λ i r. window i r.id && (is_hit regions ri r && test r))
          (λ p. is_hit regions ri p && test p) parents chunks 0 (parent_counts test parents h)

  child_selected :
      (test : Row → Bool) (i : ℕ)
      → IsKeyed parents
      → (c : Row)
      → (window i c.id
          && (has_bit
                (lookup_bitmask
                  (sort
                    (local_map regions (window_rows regions min_id max_id threads ri i parents)))
                  c.id)
                ri
              && test c))
        ≡ (window i c.id && (is_matched regions ri parents c.id && test c))
  child_selected test i keyed c = elim (Bool-cases (window i c.id)) [
    | inl e ↦
        let rows = window_rows regions min_id max_id threads ri i parents in
        let kept = filter-IsKeyed (λ r. window i r.id) parents keyed in
        rw
          (
            lookup-is_matched regions ri rows c.id kept,
            is_matched-filter regions ri (window i) parents c.id e,
          )
          refl
    | inr e ↦ rw e refl
  ]

  child_counts :
      (test : Row → Bool) (rows : List Row)
      → All (IsWithin min_id max_id) parents
      → All
          (λ c.
            tally (λ i. window i c.id && (is_matched regions ri parents c.id && test c)) chunks 0
            ≡ (if is_matched regions ri parents c.id && test c then 1 else 0))
          rows
  child_counts test [] h = tt
  child_counts test (c ∷ cs) h = (
    elim (Bool-cases (between min_id max_id c.id)) [
      | inl e ↦
          tally-and (λ i. window i c.id) (is_matched regions ri parents c.id && test c) chunks 0
            (tally-in_window min_id max_id threads c.id e)
      | inr e ↦
          rw (is_matched-outside regions ri min_id max_id parents c.id h e)
            (tally-none (λ i. window i c.id && false) chunks 0 (λ i. ground arith))
    ],
    child_counts test cs h,
  )

  children-count :
      (test : Row → Bool) (children : List Row)
      → All (IsWithin min_id max_id) parents
      → IsKeyed parents
      → count test
          (merge_chunks (child_chunk regions min_id max_id threads ri parents children) chunks 0)
        ≡ count (λ c. is_matched regions ri parents c.id && test c) children
  children-count test children h keyed =
      let entries : ℕ → List (ℤ × ℕ) =
        λ i. sort (local_map regions (window_rows regions min_id max_id threads ri i parents)) in
      let bit : ℕ → Row → Bool = λ i c. has_bit (lookup_bitmask (entries i) c.id) ri in
      let sel : ℕ → Row → Bool =
        λ i c. window i c.id && (is_matched regions ri parents c.id && test c) in
      count-merge_chunks test (child_chunk regions min_id max_id threads ri parents children) sel
        children
        (λ i.
          count-filter test (bit i) (window_rows regions min_id max_id threads ri i children)
          ∙ count-filter (λ c. bit i c && test c) (λ c. window i c.id) children
          ∙ count-cong (λ c. window i c.id && (bit i c && test c)) (sel i) children
              (child_selected test i keyed))
        chunks 0
      ∙ total-count sel (λ c. is_matched regions ri parents c.id && test c) children chunks 0
          (child_counts test children h)

empty-no_rows :
    (min_id max_id : ℤ) (rows : List Row)
    → ltb_ℤ max_id min_id ≡ true
    → All (IsWithin min_id max_id) rows
    → rows ≡ []
empty-no_rows min_id max_id [] e h = refl
empty-no_rows min_id max_id (p ∷ ps) e (h, hs) = let clash : true ≡ false = ground arith in cc

-- For each test of rows, the file of a region's table has as many rows that pass it as the table has
-- among the rows that match the region, and the file of its tags as many as the tags have among the
-- rows with the id of such a row: however the ids are cut in chunks, no row is lost or written twice.
-- The ids of the table are within the least and the greatest, and no two rows have the same.
pub process_pair-count :
    (regions : List (Geom → Bool)) (min_id max_id : ℤ) (threads ri : ℕ)
    (parents children : List Row) (test : Row → Bool)
    → All (IsWithin min_id max_id) parents
    → IsKeyed parents
    → (count test (process_pair regions min_id max_id threads ri parents children).0
        ≡ count (λ p. is_hit regions ri p && test p) parents)
      × (count test (process_pair regions min_id max_id threads ri parents children).1
          ≡ count (λ c. is_matched regions ri parents c.id && test c) children)
unfolding process_pair
process_pair-count regions min_id max_id threads ri parents children test h keyed =
    elim (Bool-cases (ltb_ℤ max_id min_id)) [
      | inl e ↦
          let none_left = empty-no_rows min_id max_id parents e h in
          rw (e, none_left) (refl, sym (count-none (λ c. false && test c) children (λ c. refl)))
      | inr e ↦ rw e (
        parents-count regions min_id max_id threads ri parents test h,
        children-count regions min_id max_id threads ri parents test children h keyed,
      )
    ]
