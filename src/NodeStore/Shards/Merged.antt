-- ===== src/NodeStore/Shards/Merged.antt =====
-- The contract of the node phase: what is inserted into shards is what the merged store holds.
use gpsxdb.Prelude.{
  ℕ, zero, suc, ◌+◌, ◌^◌, ◌<◌, ◌≡◌, refl, ◌∙◌, ap, ◌==◌, arith, [], ◌∷◌, All, Option, Bool-cases,
  inl, inr,
}
use gpsxdb.Prelude.Int.{ℤ}
use gpsxdb.Bytes.Signed.{to_size, IsI64}
use gpsxdb.NodeStore.{Coord, Store, done, create_file, select}
use gpsxdb.NodeStore.Laws.{select-view}
use gpsxdb.NodeStore.Writes.{Returns}
use gpsxdb.NodeStore.Map.{Models, empty_map, create_file-IsValid, view-create_file}
use gpsxdb.NodeStore.Shards.{Lz4, open_shard, close_writer, merge_from, merge}
use gpsxdb.NodeStore.Shards.Entries.{Entry, IsEntry, merged, Holds}
use gpsxdb.NodeStore.Shards.Stream.{process_outputs-Holds}
use gpsxdb.NodeStore.Shards.Written.{Session, inserted_in, IsLossless, insert_all, insert_all-frame}

-- The map that `k` shards leave from the number `i` on, the later over the earlier.
abbrev pub merged_from : ℕ → Session → ℕ → ℕ → (ℕ → Option Coord) → ℕ → Option Coord
merged_from max_id session zero i f = f
merged_from max_id session (suc k) i f =
    merged_from max_id session k (i + 1) (merged max_id f (inserted_in i session))

abbrev pub IsInsert : ℕ × Entry → Type 0
IsInsert (shard, e) = IsEntry e

inserted_in-IsEntry :
    (i : ℕ) (session : Session) → All IsInsert session → All IsEntry (inserted_in i session)
inserted_in-IsEntry i [] h = tt
inserted_in-IsEntry i ((shard, e) ∷ session) h = elim (Bool-cases (i == shard)) [
  | inl b ↦ rw b (h.0, inserted_in-IsEntry i session h.1)
  | inr b ↦ rw b (inserted_in-IsEntry i session h.1)
]

module _ {C : Type 0} (lz4 : Lz4 C) (max_id : ℕ) (session : Session) where
  merge_from-Holds :
      (k i : ℕ) (f : ℕ → Option Coord) (s : Store)
      → IsLossless lz4
      → All IsInsert session
      → Holds max_id f s
      → Returns
          (merge_from lz4 k i (insert_all lz4 session (λ j. open_shard lz4)) s)
          (Holds max_id (merged_from max_id session k i f))
  unfolding merge_from
  merge_from-Holds zero i f s law ok h = (s, refl, h)
  merge_from-Holds (suc k) i f s law ok h =
      let shards = insert_all lz4 session (λ j. open_shard lz4) in
      let (cs, out, same) = insert_all-frame lz4 session i in
      let outputs = lz4.decompress (close_writer lz4 (shards i)).out in
      let (t, run, held) =
        process_outputs-Holds outputs max_id f s [] (inserted_in i session) (omega arith)
          (rw out (law cs ∙ same)) (inserted_in-IsEntry i session ok) h in
      let (u, run', held') =
        merge_from-Holds k (i + 1) (merged max_id f (inserted_in i session)) t law ok held in
      (u, rw (run, merge_from) run', held')

-- Of a compression that gives back what it was given: nodes are inserted into shards in any order,
-- with ids whose offset does not wrap, then the shards are merged into a new store. The merge stays
-- in the mapped files, and select then answers, for every 64-bit id, with the coordinates that the
-- last insert of the id gave, the shards taken one after the other by their number; and with nothing
-- for an id that was not inserted or that exceeds the store's largest.
pub select-merge :
    {C : Type 0} (lz4 : Lz4 C) (max_id num_shards : ℕ) (session : Session) (id : ℤ)
    → IsLossless lz4
    → max_id < 2 ^ 54
    → All IsInsert session
    → IsI64 id
    → Returns
        (merge lz4 num_shards (insert_all lz4 session (λ j. open_shard lz4)) (create_file max_id))
        (λ t. select t id ≡ done (merged_from max_id session num_shards 0 empty_map (to_size id)))
unfolding merge create_file
select-merge lz4 max_id num_shards session id law small ok h =
    let start : Models empty_map (create_file max_id) = record {
      valid = create_file-IsValid max_id small;
      reads = view-create_file max_id;
    } in
    let (t, run, held) =
      merge_from-Holds lz4 max_id session num_shards 0 empty_map (create_file max_id) law ok
        (start, refl) in
    (t, run, select-view t id held.0.valid h ∙ ap done (held.0.reads (to_size id)))
