-- ===== src/NodeFile/Search.antt =====
-- The binary search of `select`: it ends, and finds what a search from the first record on finds.
use gpsxdb.Prelude.{
  ℕ, zero, suc, ◌+◌, ◌-◌, ◌/◌, ◌<◌, ◌≤◌, ◌≡◌, refl, sym, ◌∙◌, true, false, ltb, ltb→lt, lt→ltb, leb,
  if◌then◌else◌, List, [], ◌∷◌, arith, Bool-cases, inl, inr, Option, none, some,
}
use gpsxdb.Prelude.Int.{eqb_ℤ, ℤ, pos_part, neg_part, ltb_ℤ, ◌≤ℤ◌}
use gpsxdb.Bytes.{Bytes, Double}
use gpsxdb.NodeFile.{Node, NodeFile, read_record, lower_bound, select, records}

infix 50 ◌<ℤ◌
abbrev pub ◌<ℤ◌ : ℤ → ℤ → Type 0
a <ℤ b = pos_part a + neg_part b < pos_part b + neg_part a

module _ (key : ℕ → ℤ) (id : ℤ) (n : ℕ) (sorted : (i j : ℕ) → i < j → j < n → key i <ℤ key j) where
  -- `r` is the number of keys below `id`.
  record Splits (r : ℕ) : Type 0 where
    within : r ≤ n
    below : (i : ℕ) → i < r → key i <ℤ id
    above : (i : ℕ) → r ≤ i → i < n → id ≤ℤ key i

  -- A key below `id` puts all before it below `id`, and likewise from above.
  downwards : (mid i : ℕ) → mid < n → key mid <ℤ id → i < mid + 1 → key i <ℤ id
  downwards mid i m h le = elim (Bool-cases (ltb i mid)) [
    | inl less ↦ omega (arith, sorted i mid (ltb→lt _ _ less) m)
    | inr e ↦ (let same : i ≡ mid = ground arith in rw same h)
  ]

  upwards : (mid i : ℕ) → i < n → id ≤ℤ key mid → mid ≤ i → id ≤ℤ key i
  upwards mid i m h le = elim (Bool-cases (ltb mid i)) [
    | inl less ↦ omega (arith, sorted mid i (ltb→lt _ _ less) m)
    | inr e ↦ (let same : i ≡ mid = ground arith in rw same h)
  ]

  lower_bound-Splits :
      (fuel lo hi : ℕ)
      → hi - lo < fuel
      → lo ≤ hi
      → hi ≤ n
      → ((i : ℕ) → i < lo → key i <ℤ id)
      → ((i : ℕ) → hi ≤ i → i < n → id ≤ℤ key i)
      → (r : ℕ) × (lower_bound fuel key id lo hi ≡ some r) × Splits r
  unfolding lower_bound
  lower_bound-Splits zero lo hi f le top below above = absurd (omega arith)
  lower_bound-Splits (suc fuel) lo hi f le top below above =
      let mid = lo + (hi - lo) / 2 in
      elim (Bool-cases (ltb lo hi)) [
        | inr done ↦ (
          lo,
          rw (done, lower_bound),
          record { within = omega arith; below = below; above = λ i h k. above i (ground arith) k },
        )
        | inl more ↦ elim (Bool-cases (ltb_ℤ (key mid) id)) [
          | inl e ↦
              rw (more, e, lower_bound)
                (lower_bound-Splits fuel (mid + 1) hi (ground arith) (ground arith) top
                  (λ i h. downwards mid i (ground arith) (ground arith) h) above)
          | inr e ↦
              rw (more, e, lower_bound)
                (lower_bound-Splits fuel lo mid (ground arith) (ground arith) (ground arith) below
                  (λ i h k. upwards mid i k (ground arith) h))
        ]
      ]

-- The first node with the id, from the first on.
abbrev pub find_node : ℤ → List Node → Option (Double × Double)
find_node id [] = none
find_node id (n ∷ ns) = if eqb_ℤ n.id id then some (n.lon_m, n.lat_m) else find_node id ns

-- The ids ascend, as the exporters and `merge` write them.
abbrev pub IsAscending : Bytes → ℕ → Type 0
IsAscending base n = (i j : ℕ) → i < j → j < n → (read_record base i).id <ℤ (read_record base j).id

abbrev key : Bytes → ℕ → ℤ
key base i = (read_record base i).id

module _ (base : Bytes) (id : ℤ) where
  -- Records with other ids do not count.
  find_node_skip :
      (k i m : ℕ)
      → ((j : ℕ) → i ≤ j → j < i + k → eqb_ℤ (read_record base j).id id ≡ false)
      → find_node id (records base i (k + m)) ≡ find_node id (records base (i + k) m)
  unfolding records
  find_node_skip zero i m h = let (e, e') : (0 + m ≡ m) × (i + 0 ≡ i) = omega arith in rw (e, e')
  find_node_skip (suc k) i m h =
      let e : suc k + m ≡ suc (k + m) = omega arith in
      let e' : i + suc k ≡ i + 1 + k = omega arith in
      rw (e, e', h i (omega arith) (omega arith))
        (find_node_skip k (i + 1) m (λ j le lt. h j (omega arith) (omega arith)))

  find_node_nowhere :
      (k i : ℕ)
      → ((j : ℕ) → i ≤ j → j < i + k → eqb_ℤ (read_record base j).id id ≡ false)
      → find_node id (records base i k) ≡ none
  unfolding records
  find_node_nowhere zero i h = refl
  find_node_nowhere (suc k) i h =
      rw (h i (omega arith) (omega arith))
        (find_node_nowhere k (i + 1) (λ j le lt. h j (omega arith) (omega arith)))

differ_below : (a b : ℤ) → a <ℤ b → eqb_ℤ a b ≡ false
unfolding eqb_ℤ
differ_below a b h = let e : ltb_ℤ a b ≡ true = lt→ltb _ _ h in rw e

differ_above : (a b : ℤ) → b <ℤ a → eqb_ℤ a b ≡ false
unfolding eqb_ℤ
differ_above a b h =
    let e : ltb_ℤ a b ≡ false = ground arith in
    let e' : ltb_ℤ b a ≡ true = lt→ltb _ _ h in rw (e, e')

module _ (f : NodeFile) (id : ℤ) (sorted : IsAscending f.base f.record_count) where
  found : ℕ → Option (Double × Double)
  found r = let n = read_record f.base r in if eqb_ℤ n.id id then some (n.lon_m, n.lat_m) else none

  -- After the split point only the next record can have the id.
  find_node-split :
      (r : ℕ)
      → Splits (key f.base) id f.record_count sorted r
      → find_node id (records f.base 0 f.record_count)
        ≡ (if leb f.record_count r then none else found r)
  unfolding found
  find_node-split r sp =
      let n = f.record_count in
      let skipped : find_node id (records f.base 0 (r + (n - r)))
          ≡ find_node id (records f.base (0 + r) (n - r)) =
        find_node_skip f.base id r 0 (n - r)
          (λ j _ lt. differ_below (key f.base j) id (sp.below j (omega arith))) in
      let (whole, start) : (r + (n - r) ≡ n) × (0 + r ≡ r) = omega (arith, sp.within) in
      let split : find_node id (records f.base 0 n) ≡ find_node id (records f.base r (n - r)) =
        (rw (whole, start) at skipped) in
      elim (Bool-cases (leb n r)) [
        | inl past ↦
            let none_left : n - r ≡ 0 = ground arith in
            rw past (rw none_left at split ∙ unfold records in refl)
        | inr e ↦
            let more : n - r ≡ suc (n - r - 1) = ground arith in
            let later : find_node id (records f.base (r + 1) (n - r - 1)) ≡ none =
              find_node_nowhere f.base id (n - r - 1) (r + 1) (λ j le lt.
                differ_above (key f.base j) id (
                  omega (
                    arith,
                    sp.above r (omega arith) (omega arith),
                    sorted r j (omega arith) (omega arith),
                  ))) in
            rw e (rw more at split ∙ (unfold records in rw later))
      ]

-- On a file whose ids ascend, the binary search ends and gives what a search through all records
-- gives: the coordinates under the id, or nothing.
pub select-find_node :
    (f : NodeFile) (id : ℤ)
    → IsAscending f.base f.record_count
    → select f id ≡ find_node id (records f.base 0 f.record_count)
unfolding select found
select-find_node f id sorted =
    let n = f.record_count in
    let (r, run, sp) =
      lower_bound-Splits (key f.base) id n sorted (suc n) 0 n (omega arith) (omega arith)
        (omega arith) (λ i h. absurd (omega arith)) (λ i h k. absurd (omega arith)) in
    rw (run, select) (sym (find_node-split f id sorted r sp))
