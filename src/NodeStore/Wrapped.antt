-- ===== src/NodeStore/Wrapped.antt =====
-- Ids whose byte offset does not fit 64 bits, and a bitmap that is shorter than its data file.
use gpsxdb.Prelude.{
  ℕ, ◌+◌, ◌-◌, ◌*◌, ◌/◌, ◌%◌, ◌^◌, ◌<◌, ◌≤◌, ◌≡◌, true, false, leb, ltb, arith, none, some,
}
use gpsxdb.Prelude.Int.{pos, ltb_ℤ}
use gpsxdb.Bytes.Signed.{to_size}
use gpsxdb.NodeStore.{
  Coord, Store, done, max_sane_node_id, replace, bitmap_set, bitmap_get, write_record,
  grow_merged_if_needed, write_to_merged, update, select,
}
use gpsxdb.NodeStore.Laws.{IsValid, view}
use gpsxdb.NodeStore.Writes.{Returns}

-- An id above the ceiling, but with an offset that does not wrap, is dropped unless the file
-- reaches it already.
pub update_implausible :
    (s : Store) (n : ℕ) (p : Coord)
    → max_sane_node_id < n
    → n < 2 ^ 60 - 1
    → s.size < n * 16 + 16
    → update s (pos n) p ≡ done s
unfolding update grow_merged_if_needed write_to_merged to_size
update_implausible s n p large addressable beyond =
    let exact : (n * 16 % 2 ^ 64 + 16) % 2 ^ 64 ≡ n * 16 + 16 = omega arith in
    let past : ltb s.size (n * 16 + 16) ≡ true = ground arith in
    let dropped : ltb 100_000_000_000 (n + 0) ≡ true = ground arith in
    let nonnegative : ltb_ℤ (pos n) (pos 0) ≡ false = ground arith in
    rw (nonnegative, dropped, exact, past)

bitmap_set_beyond : (bm : ℕ → ℕ) (n id : ℕ) → n ≤ id / 8 → bitmap_set bm n id ≡ bm
unfolding bitmap_set
bitmap_set_beyond bm n id h = let e : leb n (id / 8) ≡ true = ground arith in rw e

-- An id of 2 ^ 60 + r passes for r: its offset wraps, so that `update` writes its coordinates over
-- those of the node r, which the store holds.
pub update_wrapped :
    (s : Store) (r : ℕ) (p : Coord)
    → IsValid s
    → bitmap_get s.bm s.bm_size r ≡ true
    → Returns (update s (pos (2 ^ 60 + r)) p) (λ t. view t r ≡ some p)
unfolding update grow_merged_if_needed write_to_merged write_record to_size
update_wrapped s r p v held =
    let id : ℕ = 2 ^ 60 + r in
    let fits = v.held r held in
    let offset : id * 16 % 2 ^ 64 ≡ r * 16 = omega (arith, v.small) in
    let end : (r * 16 + 16) % 2 ^ 64 ≡ r * 16 + 16 = omega (arith, v.small) in
    let slot : r * 16 / 16 ≡ r = omega arith in
    let dropped : ltb 100_000_000_000 (id + 0) ≡ true = ground arith in
    let nonnegative : ltb_ℤ (pos id) (pos 0) ≡ false = ground arith in
    let within : ltb s.size (r * 16 + 16) ≡ false = ground arith in
    let inside : leb (r * 16 + 16) s.size ≡ true = ground arith in
    let no_bit : bitmap_set s.bm s.bm_size id ≡ s.bm =
      bitmap_set_beyond s.bm s.bm_size id (omega (arith, v.small, v.tight)) in
    (
      record s { records = replace s.records r p },
      rw (nonnegative, dropped, offset, end, within, inside, slot, no_bit),
      rw held (ground arith),
    )

-- Where the bitmap file is shorter than the data file needs, as a crash between the two
-- `ftruncate`s leaves them, a coordinate that `update` stores in the part without bits is not found
-- by `select`.
pub update_short_bitmap :
    (s : Store) (n : ℕ) (p : Coord)
    → s.size < 2 ^ 59
    → n ≤ max_sane_node_id
    → n * 16 + 16 ≤ s.size
    → s.bm_size ≤ n / 8
    → Returns (update s (pos n) p) (λ t. (t.records n ≡ p) × (select t (pos n) ≡ done none))
unfolding update grow_merged_if_needed write_to_merged write_record select bitmap_get to_size
update_short_bitmap s n p small sane fits short =
    let needed : (n + 1) % 2 ^ 64 * 16 % 2 ^ 64 ≡ n * 16 + 16 = omega arith in
    let enough : leb (n * 16 + 16) s.size ≡ true = ground arith in
    let offset : n * 16 % 2 ^ 64 ≡ n * 16 = omega arith in
    let end : (n * 16 + 16) % 2 ^ 64 ≡ n * 16 + 16 = omega arith in
    let slot : n * 16 / 16 ≡ n = omega arith in
    let plausible : ltb 100_000_000_000 (n + 0) ≡ false = ground arith in
    let nonnegative : ltb_ℤ (pos n) (pos 0) ≡ false = ground arith in
    let within : ltb s.size (n * 16 + 16) ≡ false = ground arith in
    let no_bit = bitmap_set_beyond s.bm s.bm_size n short in
    let unset : leb s.bm_size (n / 8) ≡ true = ground arith in
    (
      record s { records = replace s.records n p },
      rw (nonnegative, plausible, needed, enough, offset, end, within, enough, slot, no_bit),
      (ground arith, rw unset),
    )
