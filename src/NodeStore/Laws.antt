-- ===== src/NodeStore/Laws.antt =====
-- The store as a map from ids to coordinates: what each operation does to it.
use gpsxdb.Prelude.{
  ℕ, ◌+◌, ◌-◌, ◌*◌, ◌/◌, ◌%◌, ◌^◌, ◌<◌, ◌≤◌, ◌≡◌, refl, sym, ◌∙◌, true, false, ltb, leb, leb→le,
  lt→ltb, if◌then◌else◌, arith, Bool-cases, inl, inr, Option, none, some,
}
use gpsxdb.Prelude.Int.{ℤ, pos, negsuc}
use gpsxdb.Bytes.Signed.{to_size, IsI64}
use gpsxdb.NodeStore.{
  grown, Coord, Store, done, max_sane_node_id, bitmap_get, read_record, resized, grown_size,
  grow_merged_if_needed, select,
}
use gpsxdb.NodeStore.Bitmap.{IsBitmap, resized-IsBitmap, bitmap_get-resized}

pub record IsValid (s : Store) : Type 0 where
  -- A size that 64-bit offsets reach.
  pub small : s.size < 2 ^ 59
  -- A bit for each record.
  pub tight : s.bm_size ≡ (s.size / 16 + 7) / 8
  pub bytes : IsBitmap s.bm
  -- Only ids with a record have their bit set.
  pub held : (j : ℕ) → bitmap_get s.bm s.bm_size j ≡ true → j * 16 + 16 ≤ s.size

-- The abstract map: the coordinates under an id, if the store holds it.
abbrev pub view : Store → ℕ → Option Coord
view s j = if bitmap_get s.bm s.bm_size j then some (s.records j) else none

-- Ids below this bound have offsets that do not wrap.
abbrev pub IsAddressable : ℕ → Type 0
IsAddressable n = n < 2 ^ 60 - 1

get_out_of_range : (s : Store) (j : ℕ) → s.bm_size ≤ j / 8 → bitmap_get s.bm s.bm_size j ≡ false
unfolding bitmap_get
get_out_of_range s j h = ground arith

select_pos : (s : Store) (n : ℕ) → IsValid s → n < 2 ^ 63 → select s (pos n) ≡ done (view s n)
unfolding select read_record to_size
select_pos s n v h = elim (Bool-cases (bitmap_get s.bm s.bm_size n)) [
  | inl e ↦ let fits = v.held n e in ground arith
  | inr e ↦ rw e
]

-- `select` reads the map, for every 64-bit id, without leaving the mapping.
pub select-view :
    (s : Store) (id : ℤ) → IsValid s → IsI64 id → select s id ≡ done (view s (to_size id))
unfolding select
select-view s (pos n) v h = unfold to_size in select_pos s n v h
select-view s (negsuc n) v h = rw (
  get_out_of_range s (to_size (negsuc n)) (unfold to_size in omega (arith, v.tight, v.small)),
  select,
)

module _ (s : Store) (v : IsValid s) (id : ℤ) (size : ℕ) (larger : s.size ≤ size) where
  same_bits :
      (j : ℕ)
      → bitmap_get (resized 0 s.bm s.bm_size) ((size / 16 + 7) / 8) j ≡ bitmap_get s.bm s.bm_size j
  same_bits j =
      bitmap_get-resized s.bm v.bytes s.bm_size ((size / 16 + 7) / 8) j (omega (arith, v.tight))

  view-grown : (j : ℕ) → view (grown s id size) j ≡ view s j
  unfolding grown resized
  view-grown j = elim (Bool-cases (bitmap_get s.bm s.bm_size j)) [
    | inl e ↦
        let within : ltb j (s.size / 16) ≡ true = lt→ltb _ _ (omega (arith, v.held j e)) in
        rw (same_bits j, e, within)
    | inr e ↦ rw (same_bits j, e)
  ]

  grown-IsValid : size < 2 ^ 59 → IsValid (grown s id size)
  unfolding grown
  grown-IsValid small = record {
    small = small;
    tight = refl;
    bytes = resized-IsBitmap s.bm v.bytes s.bm_size 0;
    held = λ j e. omega (arith, v.held j (sym (same_bits j) ∙ e));
  }

-- `t` holds what `s` holds, and has room for the id `n`.
pub record MakesRoom (s : Store) (n : ℕ) (t : Store) : Type 0 where
  pub valid : IsValid t
  pub room : n * 16 + 16 ≤ t.size
  pub unchanged : (j : ℕ) → view t j ≡ view s j

grown_size_bounds :
    (size needed : ℕ)
    → size < needed
    → needed < 2 ^ 42
    → (size ≤ grown_size size needed)
      × (needed ≤ grown_size size needed)
      × (grown_size size needed < 2 ^ 59)
unfolding grown_size
grown_size_bounds size needed h k = omega arith

module _ (s : Store) (v : IsValid s) (n : ℕ) (sane : n ≤ max_sane_node_id) where
  -- Growing for a plausible id makes room for it, and the map stays as it is.
  pub grow-MakesRoom : MakesRoom s n (grow_merged_if_needed s (pos n))
  unfolding grow_merged_if_needed to_size
  grow-MakesRoom =
      let needed = (n + 1) % 2 ^ 64 * 16 % 2 ^ 64 in
      let exact : needed ≡ n * 16 + 16 = omega arith in
      let plausible : ltb 100_000_000_000 (n + 0) ≡ false = ground arith in
      elim (Bool-cases (leb needed s.size)) [
        | inl e ↦
            rw (plausible, e)
              (record { valid = v; room = omega (arith, leb→le _ _ e); unchanged = λ j. refl })
        | inr e ↦
            let more : s.size < needed = ground arith in
            let (larger, enough, small) = grown_size_bounds s.size needed more (omega arith) in
            rw (plausible, e)
              (record {
                valid = grown-IsValid s v (pos n) (grown_size s.size needed) larger small;
                room = unfold grown in omega arith;
                unchanged = view-grown s v (pos n) (grown_size s.size needed) larger;
              })
      ]
