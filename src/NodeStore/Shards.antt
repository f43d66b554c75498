-- ===== src/NodeStore/Shards.antt =====
-- The node phase of the import: `OSMMMap::insert` into shard files, and `OSMMMap::merge` of these
-- into the store, src/OSMMMap.cpp. LZ4 is a record of what the code calls of it. The counters of the
-- progress and the periodic syncs are left out; a shard is a file that this process wrote, in which
-- LZ4 finds no error.
pub mod Entries
pub mod Stream
pub mod Written
pub mod Merged
mod Tests
use gpsxdb.Prelude.{
  ℕ, zero, suc, ◌+◌, ◌-◌, ◌*◌, ◌/◌, ◌^◌, max, Bool, true, false, ltb, leb, if◌then◌else◌, List, [],
  ◌∷◌, ◌++◌, length, take, drop,
}
use gpsxdb.Prelude.Int.{ℤ}
use gpsxdb.Bytes.{Bytes, write_le, read_le}
use gpsxdb.Bytes.Signed.{to_size, to_i64}
use gpsxdb.NodeStore.{
  Coord, Store, Access, done, segv, replace, resized, bitmap_set, write_to_merged,
}

-- `LZ4F_compressBegin`, `LZ4F_compressUpdate` and `LZ4F_compressEnd` on a context, and what the calls
-- of `LZ4F_decompress` put out, one after the other, until a file ends.
pub record Lz4 (C : Type 0) : Type 0 where
  pub begin : C × Bytes
  pub update : C → Bytes → C × Bytes
  pub end : C → Bytes
  pub decompress : Bytes → List Bytes

-- `out` is the shard file.
pub record ShardWriter (C : Type 0) : Type 0 where
  pub is_open : Bool
  pub ctx : C
  pub inbuf : Bytes
  pub out : Bytes
  pub bm_size : ℕ
  pub bm : ℕ → ℕ

abbrev pub chunk_size : ℕ
chunk_size = 4194304

abbrev pub shard_record_size : ℕ
shard_record_size = 24

abbrev pub Shards : Type 0 → Type 0
Shards C = ℕ → ShardWriter C

module _ {C : Type 0} where
  pub grow_bitmap : ShardWriter C → ℤ → ShardWriter C
  grow_bitmap s id =
      let needed = to_size id / 8 + 1 in
      if leb needed s.bm_size then s else record s {
        bm_size = max needed (s.bm_size + s.bm_size / 4);
        bm = resized 0 s.bm s.bm_size;
      }

module _ {C : Type 0} (lz4 : Lz4 C) where
  -- The constructor, on a new file.
  pub open_shard : ShardWriter C
  open_shard = record {
    is_open = true;
    ctx = lz4.begin.0;
    inbuf = [];
    out = lz4.begin.1;
    bm_size = 1048576;
    bm = λ _. 0;
  }

  pub flush_inbuf : ShardWriter C → ShardWriter C
  flush_inbuf s = elim s.inbuf [
    | [] ↦ s
    | b ∷ bs ↦
        let (ctx, bytes) = lz4.update s.ctx (b ∷ bs) in
        record s { ctx = ctx; out = s.out ++ bytes; inbuf = [] }
  ]

  pub close_writer : ShardWriter C → ShardWriter C
  close_writer s = elim s.is_open [
    | false ↦ s
    | true ↦ let s = flush_inbuf s in record s { is_open = false; out = s.out ++ lz4.end s.ctx }
  ]

-- The record of a node in a shard.
pub shard_record : ℤ → Coord → Bytes
shard_record id (lon_m, lat_m) = write_le 8 (to_size id) ++ (write_le 8 lon_m ++ write_le 8 lat_m)

module _ {C : Type 0} (lz4 : Lz4 C) where
  -- `insert` into one shard.
  pub insert_into : ShardWriter C → ℤ → Coord → ShardWriter C
  insert_into s id p =
      let s = grow_bitmap s id in
      let s = record s { inbuf = s.inbuf ++ shard_record id p } in
      let s = if leb chunk_size (length s.inbuf) then flush_inbuf lz4 s else s in
      record s { bm = bitmap_set s.bm s.bm_size (to_size id) }

  pub insert : Shards C → ℕ → ℤ → Coord → Shards C
  insert shards shard id p = replace shards shard (insert_into (shards shard) id p)

infixr 35 ◌>>=◌
abbrev pub ◌>>=◌ {ℓ κ} : {A : Type ℓ} {B : Type κ} → Access A → (A → Access B) → Access B
done a >>= f = f a
segv >>= f = segv

-- 24 bytes, into the store.
pub write_bytes : Store → Bytes → Access Store
write_bytes s bytes =
    write_to_merged s (to_i64 (read_le 8 bytes 0)) (read_le 8 bytes 8, read_le 8 bytes 16)

-- The full records of an output, and the bytes that are left; the number of bytes is fuel enough.
pub full_records : ℕ → Bytes → Store → Access (Store × Bytes)
full_records zero p s = done (s, p)
full_records (suc fuel) p s =
    if leb shard_record_size (length p)
    then (write_bytes s (take 24 p) >>= λ t. full_records fuel (drop 24 p) t)
    else done (s, p)

-- An output of `LZ4F_decompress` after the bytes `partial` of a record.
pub process_output : Bytes → Bytes → Store → Access (Store × Bytes)
process_output [] p s = full_records (length p) p s
process_output (b ∷ bs) p s =
    let partial = b ∷ bs in
    let need = 24 - length partial in
    if ltb (length p) need
    then done (s, partial ++ p)
    else write_bytes s (partial ++ take need p) >>= λ t. full_records (length p) (drop need p) t

-- All outputs of a shard. The bytes of a record that is not complete are dropped.
pub process_outputs : List Bytes → Bytes → Store → Access Store
process_outputs [] partial s = done s
process_outputs (p ∷ ps) partial s =
    process_output partial p s >>= λ out. process_outputs ps out.1 out.0

module _ {C : Type 0} (lz4 : Lz4 C) where
  -- `merge` of the `k` shards from the number `i` on.
  pub merge_from : ℕ → ℕ → Shards C → Store → Access Store
  merge_from zero i shards s = done s
  merge_from (suc k) i shards s =
      process_outputs (lz4.decompress (close_writer lz4 (shards i)).out) [] s >>= λ t.
      merge_from k (i + 1) shards t

  pub merge : ℕ → Shards C → Store → Access Store
  merge num_shards shards s = merge_from num_shards 0 shards s
