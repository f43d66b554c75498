-- ===== src/NodeStore/Writes.antt =====
-- What a write of one record does to a store, and to the map that the store stands for.
use gpsxdb.Prelude.{
  ℕ, ◌+◌, ◌-◌, ◌*◌, ◌/◌, ◌%◌, ◌^◌, ◌<◌, ◌≤◌, ◌≡◌, refl, ap, ◌∙◌, true, false, ltb, leb, lt→ltb,
  ◌==◌, if◌then◌else◌, arith, Bool-cases, inl, inr, Option, none, some,
}
use gpsxdb.Prelude.Int.{pos, ltb_ℤ}
use gpsxdb.Bytes.Bits.{clear_bit}
use gpsxdb.Bytes.Signed.{to_size}
use gpsxdb.NodeStore.{
  Coord, Store, Access, done, max_sane_node_id, replace, bitmap_set, bitmap_get, write_record,
  grow_merged_if_needed, write_to_merged, update, remove,
}
use gpsxdb.NodeStore.Bitmap.{
  bitmap_set-IsBitmap, bitmap_get-set, replace-IsBitmap, bitmap_get-clear,
}
use gpsxdb.NodeStore.Laws.{IsValid, view, grow-MakesRoom}

-- `t` is `s` with the coordinates `p` under the id `n`, or without that id.
pub record Writes (s : Store) (n : ℕ) (p : Option Coord) (t : Store) : Type 0 where
  pub valid : IsValid t
  pub views : (j : ℕ) → view t j ≡ (if j == n then p else view s j)

-- The operation ends inside of the mapping, in a store that satisfies `P`.
abbrev pub Returns : Access Store → (Store → Type 0) → Type 0
Returns r P = (t : Store) × (r ≡ done t) × P t

nonnegative : (n : ℕ) → ltb_ℤ (pos n) (pos 0) ≡ false
nonnegative n = ground arith

module _ (s : Store) (v : IsValid s) (n : ℕ) (room : n * 16 + 16 ≤ s.size) where
  offset_exact : n * 16 % 2 ^ 64 ≡ n * 16
  offset_exact = omega (arith, v.small)

  end_exact : (n * 16 + 16) % 2 ^ 64 ≡ n * 16 + 16
  end_exact = omega (arith, v.small)

  slot_exact : n * 16 / 16 ≡ n
  slot_exact = omega arith

  not_beyond : ltb s.size (n * 16 + 16) ≡ false
  not_beyond = ground arith

  inside : leb (n * 16 + 16) s.size ≡ true
  inside = ground arith

  has_bit : n / 8 < s.bm_size
  has_bit = omega (arith, v.tight)

  written : Coord → Store
  written p = record s { records = replace s.records n p; bm = bitmap_set s.bm s.bm_size n }

  written-Writes : (p : Coord) → Writes s n (some p) (written p)
  unfolding written
  written-Writes p = record {
    valid = record {
      small = v.small;
      tight = v.tight;
      bytes = bitmap_set-IsBitmap s.bm v.bytes s.bm_size n;
      held = λ j e. ground (arith, bits j, v.held j);
    };
    views = λ j. ground (arith, bits j);
  }
    where
      bits :
          (j : ℕ)
          → bitmap_get (bitmap_set s.bm s.bm_size n) s.bm_size j
            ≡ (if j == n then true else bitmap_get s.bm s.bm_size j)
      bits j = bitmap_get-set s.bm v.bytes s.bm_size n j has_bit

  pub write_to_merged-Writes :
      (p : Coord)
      → Returns (write_to_merged s (pos n) p) (λ t. Writes s n (some p) t × (t.size ≡ s.size))
  unfolding write_to_merged write_record to_size written
  write_to_merged-Writes p = (
    written p,
    rw (nonnegative n, offset_exact, end_exact, not_beyond, inside, slot_exact),
    (written-Writes p, refl),
  )

module _ (s : Store) (n : ℕ) where
  -- A record beyond the end of the file is left out.
  pub write_to_merged-beyond :
      (p : Coord) → n < 2 ^ 60 - 1 → s.size < n * 16 + 16 → write_to_merged s (pos n) p ≡ done s
  unfolding write_to_merged to_size
  write_to_merged-beyond p h k =
      let exact : (n * 16 % 2 ^ 64 + 16) % 2 ^ 64 ≡ n * 16 + 16 = omega arith in
      let past : ltb s.size (n * 16 + 16) ≡ true = ground arith in rw (nonnegative n, exact, past)

module _ (s : Store) (v : IsValid s) (n : ℕ) (room : n * 16 + 16 ≤ s.size) where
  removed : Store
  removed = record s {
    records = replace s.records n (0, 0);
    bm = replace s.bm (n / 8) (clear_bit (s.bm (n / 8)) (n % 8));
  }

  removed-Writes : Writes s n none removed
  unfolding removed
  removed-Writes = record {
    valid = record {
      small = v.small;
      tight = v.tight;
      bytes = replace-IsBitmap s.bm v.bytes s.bm_size n;
      held = λ j e. ground (arith, bits j, v.held j);
    };
    views = λ j. ground (arith, bits j);
  }
    where
      bits :
          (j : ℕ)
          → bitmap_get (replace s.bm (n / 8) (clear_bit (s.bm (n / 8)) (n % 8))) s.bm_size j
            ≡ (if j == n then false else bitmap_get s.bm s.bm_size j)
      bits j = bitmap_get-clear s.bm v.bytes s.bm_size n j (has_bit s v n room)

  remove_present : Returns (remove s (pos n)) (Writes s n none)
  unfolding remove write_record to_size removed
  remove_present =
      let byte : ltb (n / 8) s.bm_size ≡ true = lt→ltb _ _ (has_bit s v n room) in
      (
        removed,
        rw (
          nonnegative n,
          offset_exact s v n room,
          end_exact s v n room,
          not_beyond s v n room,
          inside s v n room,
          slot_exact s v n room,
          byte,
        ),
        removed-Writes,
      )

module _ (s : Store) (v : IsValid s) (n : ℕ) where
  pub remove-Writes : n < 2 ^ 60 - 1 → Returns (remove s (pos n)) (Writes s n none)
  unfolding remove to_size
  remove-Writes addressable = elim (Bool-cases (ltb s.size (n * 16 + 16))) [
    | inl beyond ↦
        let exact : (n * 16 % 2 ^ 64 + 16) % 2 ^ 64 ≡ n * 16 + 16 = omega arith in
        (
          s,
          rw (nonnegative n, exact, beyond),
          record { valid = v; views = λ j. ground (arith, v.held j) },
        )
    | inr within ↦ remove_present s v n (ground arith)
  ]

  pub update-Writes :
      n ≤ max_sane_node_id → (p : Coord) → Returns (update s (pos n) p) (Writes s n (some p))
  unfolding update
  update-Writes sane p =
      let room = grow-MakesRoom s v n sane in
      let (t, run, (w, _)) =
        write_to_merged-Writes (grow_merged_if_needed s (pos n)) room.valid n room.room p in
      (
        t,
        rw (nonnegative n) run,
        record {
          valid = w.valid;
          views = λ j. w.views j ∙ ap (λ o. if j == n then some p else o) (room.unchanged j);
        },
      )
