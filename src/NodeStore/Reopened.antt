-- ===== src/NodeStore/Reopened.antt =====
-- A later process that opens the store: the constructor of `OSMMMap` in resume mode, with
-- `growFileIfNeeded`, src/OSMMMap.cpp.
use gpsxdb.Prelude.{
  ℕ, ◌+◌, ◌*◌, ◌/◌, ◌^◌, ◌<◌, ◌≡◌, max, sym, ◌∙◌, Bool-cases, inl, inr, true, ltb, lt→ltb, arith,
}
use gpsxdb.Prelude.Int.{pos}
use gpsxdb.NodeStore.{Store, resized, rec_size, bitmap_get}
use gpsxdb.NodeStore.Bitmap.{resized-IsBitmap, bitmap_get-resized}
use gpsxdb.NodeStore.Laws.{IsValid, view}

-- The size of a file after the call: the larger of its own and the one asked for.
pub grow_file_if_needed : ℕ → ℕ → ℕ
grow_file_if_needed size on_disk = max size on_disk

pub reopen : Store → ℕ → Store
reopen s max_id = record {
  size = grow_file_if_needed ((max_id + 1) * rec_size) s.size;
  records = resized (0, 0) s.records (s.size / rec_size);
  bm_size = grow_file_if_needed ((max_id + 1 + 7) / 8) s.bm_size;
  bm = resized 0 s.bm s.bm_size;
  max_id = pos max_id;
}

module _ (s : Store) (v : IsValid s) (max_id : ℕ) where
  same_bits :
      (j : ℕ)
      → bitmap_get (reopen s max_id).bm (reopen s max_id).bm_size j ≡ bitmap_get s.bm s.bm_size j
  unfolding reopen grow_file_if_needed
  same_bits j =
      bitmap_get-resized s.bm v.bytes s.bm_size (max ((max_id + 1 + 7) / 8) s.bm_size) j
        (omega arith)

  -- A process that is started with any largest id holds what the process before it held, also where
  -- that one grew the files beyond it.
  pub view-reopen : (j : ℕ) → view (reopen s max_id) j ≡ view s j
  unfolding reopen grow_file_if_needed resized
  view-reopen j = elim (Bool-cases (bitmap_get s.bm s.bm_size j)) [
    | inl e ↦
        let within : ltb j (s.size / 16) ≡ true = lt→ltb _ _ (omega (arith, v.held j e)) in
        rw (same_bits j, e, within)
    | inr e ↦ rw (same_bits j, e)
  ]

  pub reopen-IsValid : max_id < 2 ^ 54 → IsValid (reopen s max_id)
  unfolding reopen grow_file_if_needed
  reopen-IsValid small = record {
    small = omega (arith, v.small);
    tight = omega (arith, v.tight);
    bytes = resized-IsBitmap s.bm v.bytes s.bm_size 0;
    held = λ j e. omega (arith, v.held j (sym (same_bits j) ∙ e));
  }
