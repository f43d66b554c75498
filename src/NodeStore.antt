-- ===== src/NodeStore.antt =====
-- `OSMMMap` of src/OSMMMap.cpp: node coordinates in a flat file that is indexed by node id, with a
-- bitmap of the ids that it holds. The mapped files are functions with a size; an access outside of
-- a mapping is a fault. That the system calls succeed is assumed: where one fails the code throws.
pub mod Bitmap
pub mod Laws
pub mod Writes
pub mod Map
pub mod Wrapped
pub mod Shards
pub mod Scan
pub mod Reopened
mod Tests
use gpsxdb.Prelude.{
  ℕ, zero, suc, ◌+◌, ◌-◌, ◌*◌, ◌/◌, ◌%◌, ◌^◌, max, Bool, true, false, ltb, leb, ◌==◌, if◌then◌else◌,
  Option, none, some,
}
use gpsxdb.Prelude.Int.{ℤ, pos, negsuc, ltb_ℤ}
use gpsxdb.Bytes.{Double}
use gpsxdb.Bytes.Bits.{bit, set_bit, clear_bit}
use gpsxdb.Bytes.Signed.{to_size}

abbrev pub Coord : Type 0
Coord = Double × Double

-- The merged file as records of `REC_SIZE` bytes, and its bitmap as bytes.
pub record Store : Type 0 where
  pub size : ℕ
  pub records : ℕ → Coord
  pub bm_size : ℕ
  pub bm : ℕ → ℕ
  pub max_id : ℤ

-- An access to mapped memory: `segv` is one outside of the mapping.
pub data Access {ℓ} (A : Type ℓ) : Type ℓ where
  done : A → Access A
  segv : Access A

abbrev pub rec_size : ℕ
rec_size = 16

abbrev pub max_sane_node_id : ℕ
max_sane_node_id = 100_000_000_000

-- An array with one item replaced.
abbrev pub replace {ℓ} : {A : Type ℓ} → (ℕ → A) → ℕ → A → ℕ → A
replace f k v i = if i == k then v else f i

pub bitmap_set : (ℕ → ℕ) → ℕ → ℕ → ℕ → ℕ
bitmap_set bm bm_size id =
    let byte = id / 8 in
    if leb bm_size byte then bm else replace bm byte (set_bit (bm byte) (id % 8))

unfoldable pub bitmap_get : (ℕ → ℕ) → ℕ → ℕ → Bool
bitmap_get bm bm_size id =
    let byte = id / 8 in if leb bm_size byte then false else bit (bm byte) (id % 8)

-- `static_cast<size_t>(id) * REC_SIZE`, and the sum in `offset + REC_SIZE > merged_size_`.
abbrev pub offset_of : ℤ → ℕ
offset_of id = to_size id * rec_size % 2 ^ 64

abbrev pub end_of : ℤ → ℕ
end_of id = (offset_of id + rec_size) % 2 ^ 64

-- `dst[0]` and `dst[1]` at an offset: two stores, or a fault.
pub write_record : Store → ℕ → Coord → Access Store
write_record s offset p =
    if leb (offset + rec_size) s.size
    then done (record s { records = replace s.records (offset / rec_size) p })
    else segv

unfoldable pub read_record : Store → ℕ → Access Coord
read_record s offset =
    if leb (offset + rec_size) s.size then done (s.records (offset / rec_size)) else segv

-- `createFile`: both files filled with zeros.
pub create_file : ℕ → Store
create_file max_id = record {
  size = (max_id + 1) * rec_size;
  records = λ _. (0, 0);
  bm_size = (max_id + 1 + 7) / 8;
  bm = λ _. 0;
  max_id = pos max_id;
}

-- What `ftruncate` to a new size leaves in a file that is mapped again: zeros beyond the old end.
pub resized {ℓ} : {A : Type ℓ} → A → (ℕ → A) → ℕ → ℕ → A
resized zero_item f n i = if ltb i n then f i else zero_item

max_ℤ : ℤ → ℤ → ℤ
max_ℤ a b = if ltb_ℤ a b then b else a

-- The sizes that `growMergedIfNeeded` picks.
pub grown_size : ℕ → ℕ → ℕ
grown_size size needed = max needed (max (size + size / 4) (size + 1_000_000 * rec_size))

-- Both files at their new sizes: the data first, then the bitmap.
pub grown : Store → ℤ → ℕ → Store
unfolding max_ℤ
grown s id size = record {
  size = size;
  records = resized (0, 0) s.records (s.size / rec_size);
  bm_size = (size / rec_size + 7) / 8;
  bm = resized 0 s.bm s.bm_size;
  max_id = max_ℤ s.max_id id;
}

pub grow_merged_if_needed : Store → ℤ → Store
grow_merged_if_needed s id =
    if ltb_ℤ (pos max_sane_node_id) id
    then s
    else (let needed = (to_size id + 1) % 2 ^ 64 * rec_size % 2 ^ 64 in
        if leb needed s.size then s else grown s id (grown_size s.size needed))

-- The write and the bit, after the test of `update` and of the lambda `writeToMerged`.
pub write_to_merged : Store → ℤ → Coord → Access Store
write_to_merged s id p =
    if ltb_ℤ id (pos 0)
    then done s
    else if ltb s.size (end_of id)
    then done s
    else elim (write_record s (offset_of id) p) [
      | done s' ↦ done (record s' { bm = bitmap_set s'.bm s'.bm_size (to_size id) })
      | segv ↦ segv
    ]

unfoldable pub update : Store → ℤ → Coord → Access Store
update s id p =
    if ltb_ℤ id (pos 0) then done s else write_to_merged (grow_merged_if_needed s id) id p

unfoldable pub remove : Store → ℤ → Access Store
remove s id =
    if ltb_ℤ id (pos 0)
    then done s
    else if ltb s.size (end_of id)
    then done s
    else elim (write_record s (offset_of id) (0, 0)) [
      | done s' ↦
          let byte = to_size id / 8 in
          done (
            if ltb byte s'.bm_size
            then record s' { bm = replace s'.bm byte (clear_bit (s'.bm byte) (to_size id % 8)) }
            else s')
      | segv ↦ segv
    ]

unfoldable pub select : Store → ℤ → Access (Option Coord)
select s id =
    if bitmap_get s.bm s.bm_size (to_size id)
    then (if ltb s.size (end_of id)
        then done none
        else elim (read_record s (offset_of id)) [ done p ↦ done (some p) | segv ↦ segv ])
    else done none
