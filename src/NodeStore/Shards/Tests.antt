-- ===== src/NodeStore/Shards/Tests.antt =====
-- A node phase with a compression that stores its input and puts out single bytes.
use gpsxdb.Prelude.{ℕ, ◌≡◌, refl, ◌∙◌, ap, List, [], ◌∷◌, ◌++◌, map, arith, some, none}
use gpsxdb.Prelude.Int.{pos}
use gpsxdb.Bytes.{Bytes}
use gpsxdb.Bytes.Signed.{to_size}
use gpsxdb.Wkb.Encode.{concat}
use gpsxdb.NodeStore.{done, create_file, select}
use gpsxdb.NodeStore.Writes.{Returns}
use gpsxdb.NodeStore.Map.{empty_map}
use gpsxdb.NodeStore.Shards.{Lz4, open_shard, merge}
use gpsxdb.NodeStore.Shards.Written.{Session, IsLossless, frame_from, insert_all}
use gpsxdb.NodeStore.Shards.Merged.{merged_from, select-merge}

abbrev single : ℕ → Bytes
single b = b ∷ []

abbrev outputs : Bytes → List Bytes
outputs [] = []
outputs (b ∷ bs) = map single bs

abbrev stored : Lz4 Unit
stored = record {
  begin = (tt, 4 ∷ []);
  update = λ c bytes. (tt, bytes);
  end = λ c. [];
  decompress = outputs;
}

concat-single : (bs : Bytes) → concat (map single bs) ≡ bs
unfolding concat
concat-single [] = refl
concat-single (b ∷ bs) = ap (λ x. b ∷ x) (concat-single bs)

stored-concat : (cs : List Bytes) → frame_from stored tt cs ≡ concat cs
unfolding concat
stored-concat [] = refl
stored-concat (c ∷ cs) = ap (λ x. c ++ x) (stored-concat cs)

stored-IsLossless : IsLossless stored
stored-IsLossless cs = concat-single (frame_from stored tt cs) ∙ stored-concat cs

-- Two shards; the id 7 is inserted into both, the id 90 exceeds the store.
abbrev two_shards : Session
two_shards = (1, (7, (1, 2))) ∷ (0, (7, (3, 4))) ∷ (0, (90, (5, 6))) ∷ (1, (3, (7, 8))) ∷ []

select-merge_example :
    Returns
      (merge stored 2 (insert_all stored two_shards (λ j. open_shard stored)) (create_file 50))
      (λ t. select t (pos 7) ≡ done (merged_from 50 two_shards 2 0 empty_map (to_size (pos 7))))
select-merge_example =
    select-merge stored 50 2 two_shards (pos 7) stored-IsLossless (omega arith) (omega arith)
      (omega arith)

later_shard_test : merged_from 50 two_shards 2 0 empty_map 7 ≡ some (1, 2)
later_shard_test = refl

beyond_test : merged_from 50 two_shards 2 0 empty_map 90 ≡ none
beyond_test = refl
