-- ===== src/Export/Lookup.antt =====
-- The map of a chunk tells of an id which regions its row matches.
use gpsxdb.Prelude.{
  ℕ, zero, suc, ◌+◌, ◌*◌, ◌/◌, ◌≡◌, refl, sym, ◌∙◌, ap, Bool, true, false, ◌&&◌, ◌||◌, ◌==◌, ==_iff,
  if◌then◌else◌, Bool-cases, inl, inr, List, [], ◌∷◌, get_or, All, arith,
}
use gpsxdb.Prelude.Int.{ℤ, ltb_ℤ, eqb_ℤ, eqb_ℤ-eq}
use gpsxdb.Wkb.Geometry.{Geom}
use gpsxdb.Export.{
  Row, mask_of, has_bit, LocalMap, insert_entry, sort, lookup_bitmask, hits, is_hit, local_map,
}

eqb_ℤ_flip : (a b : ℤ) → eqb_ℤ a b ≡ false → eqb_ℤ b a ≡ false
unfolding eqb_ℤ
eqb_ℤ_flip a b h = ground arith

has_bit_zero : (ri : ℕ) → has_bit 0 ri ≡ false
unfolding has_bit
has_bit_zero zero = refl
has_bit_zero (suc ri) = has_bit_zero ri

has_bit-mask_of : (bs : List Bool) (ri : ℕ) → has_bit (mask_of bs) ri ≡ get_or bs ri false
unfolding has_bit mask_of
has_bit-mask_of [] ri = has_bit_zero ri
has_bit-mask_of (true ∷ bs) zero = ground arith
has_bit-mask_of (false ∷ bs) zero = ground arith
has_bit-mask_of (true ∷ bs) (suc ri) =
    let e : (1 + 2 * mask_of bs) / 2 ≡ mask_of bs = omega arith in rw e (has_bit-mask_of bs ri)
has_bit-mask_of (false ∷ bs) (suc ri) =
    let e : (0 + 2 * mask_of bs) / 2 ≡ mask_of bs = omega arith in rw e (has_bit-mask_of bs ri)

-- The first entry with the id.
abbrev find_mask : LocalMap → ℤ → ℕ
find_mask [] id = 0
find_mask ((j, m) ∷ entries) id = if eqb_ℤ j id then m else find_mask entries id

above_differ : (i j id : ℤ) → ltb_ℤ j i ≡ true → ltb_ℤ j id ≡ false → eqb_ℤ i id ≡ false
unfolding eqb_ℤ
above_differ i j id h k = let e : ltb_ℤ id i ≡ true = ground arith in rw e (ground arith)

below_differ : (i id : ℤ) → ltb_ℤ i id ≡ true → eqb_ℤ i id ≡ false
unfolding eqb_ℤ
below_differ i id h = rw h

past_differ :
    (i j id : ℤ)
    → ltb_ℤ j i ≡ false
    → ltb_ℤ i id ≡ false
    → eqb_ℤ i id ≡ false
    → (ltb_ℤ j id ≡ false) × (eqb_ℤ j id ≡ false)
unfolding eqb_ℤ
past_differ i j id h k e =
    let less : ltb_ℤ id i ≡ true = ground (arith, rw k at e) in
    let a : ltb_ℤ j id ≡ false = ground arith in
    let b : ltb_ℤ id j ≡ true = ground arith in (a, rw (a, b))

lookup-insert_entry :
    (i : ℤ) (mask : ℕ) (entries : LocalMap) (id : ℤ)
    → lookup_bitmask (insert_entry i mask entries) id
      ≡ (if eqb_ℤ i id then mask else lookup_bitmask entries id)
unfolding lookup_bitmask insert_entry
lookup-insert_entry i mask [] id = elim (Bool-cases (ltb_ℤ i id)) [
  | inl e ↦ rw (e, below_differ i id e)
  | inr e ↦ rw e
]
lookup-insert_entry i mask ((j, m) ∷ entries) id = elim (Bool-cases (ltb_ℤ j i)) [
  | inl e ↦ elim (Bool-cases (ltb_ℤ j id)) [
    | inl f ↦ rw (e, f) (lookup-insert_entry i mask entries id)
    | inr f ↦ rw (e, f, above_differ i j id e f)
  ]
  | inr e ↦ elim (Bool-cases (ltb_ℤ i id)) [
    | inl f ↦ rw (e, f, below_differ i id f)
    | inr f ↦ elim (Bool-cases (eqb_ℤ i id)) [
      | inl g ↦ rw (e, f, g)
      | inr g ↦ let (a, b) = past_differ i j id e f g in rw (e, f, g, a, b)
    ]
  ]
]

lookup-sort :
    (entries : LocalMap) (id : ℤ) → lookup_bitmask (sort entries) id ≡ find_mask entries id
unfolding sort lookup_bitmask
lookup-sort [] id = refl
lookup-sort ((j, m) ∷ entries) id =
    lookup-insert_entry j m (sort entries) id
    ∙ ap (λ x. if eqb_ℤ j id then m else x) (lookup-sort entries id)

abbrev pub DiffersFrom : Row → Row → Type 0
DiffersFrom p q = eqb_ℤ p.id q.id ≡ false

-- No id twice, as in a primary key.
abbrev pub IsKeyed : List Row → Type 0
IsKeyed [] = Unit
IsKeyed (p ∷ ps) = All (DiffersFrom p) ps × IsKeyed ps

-- Whether a row with the id matches the region.
module _ (regions : List (Geom → Bool)) (ri : ℕ) where
  abbrev pub is_matched : List Row → ℤ → Bool
  is_matched [] id = false
  is_matched (p ∷ ps) id = (eqb_ℤ p.id id && is_hit regions ri p) || is_matched ps id

  is_matched-other :
      (p : Row) (ps : List Row) (id : ℤ)
      → All (DiffersFrom p) ps
      → eqb_ℤ p.id id ≡ true
      → is_matched ps id ≡ false
  is_matched-other p [] id h e = refl
  is_matched-other p (q ∷ ps) id (h, hs) e =
      let same : p.id ≡ id = eqb_ℤ-eq p.id id e in
      let other : eqb_ℤ q.id id ≡ false = rw (← same) (eqb_ℤ_flip p.id q.id h) in
      rw other (is_matched-other p ps id hs e)

  find_mask-is_matched :
      (ps : List Row) (id : ℤ)
      → IsKeyed ps
      → has_bit (find_mask (local_map regions ps) id) ri ≡ is_matched ps id
  unfolding local_map
  find_mask-is_matched [] id h = has_bit_zero ri
  find_mask-is_matched (p ∷ ps) id (h, hs) =
      let mask = mask_of (hits regions p) in
      let hit = has_bit-mask_of (hits regions p) ri in
      let ih = find_mask-is_matched ps id hs in
      elim (Bool-cases (mask == 0)) [
        | inl e ↦
            let no_hit : is_hit regions ri p ≡ false =
              sym hit ∙ rw ((==_iff mask 0).0 e) (has_bit_zero ri) in
            rw (e, no_hit) (ih ∙ ground arith)
        | inr e ↦ elim (Bool-cases (eqb_ℤ p.id id)) [
          | inl f ↦ rw (e, f, is_matched-other p ps id h f) (hit ∙ ground arith)
          | inr f ↦ rw (e, f) ih
        ]
      ]

  -- The look-up in the sorted map of any rows.
  pub lookup-is_matched :
      (ps : List Row) (id : ℤ)
      → IsKeyed ps
      → has_bit (lookup_bitmask (sort (local_map regions ps)) id) ri ≡ is_matched ps id
  lookup-is_matched ps id h =
      ap (λ m. has_bit m ri) (lookup-sort (local_map regions ps) id) ∙ find_mask-is_matched ps id h
