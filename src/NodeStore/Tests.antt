-- ===== src/NodeStore/Tests.antt =====
-- The theorems of the node store at concrete inputs.
use gpsxdb.Prelude.{
  ◌+◌, ◌-◌, ◌*◌, ◌%◌, ◌^◌, ◌≡◌, refl, [], ◌∷◌, List, ◌==◌, if◌then◌else◌, arith, some, none,
}
use gpsxdb.Prelude.Int.{pos}
use gpsxdb.Bytes.Bits.{bit, bit-zero}
use gpsxdb.Bytes.Signed.{to_size}
use gpsxdb.NodeStore.{bitmap_get, Store, done, update, select, create_file}
use gpsxdb.NodeStore.Laws.{IsValid, view}
use gpsxdb.NodeStore.Writes.{Returns}
use gpsxdb.NodeStore.Map.{
  Change, put, drop, apply_changes, map_changes, empty_map, select-apply_changes,
}
use gpsxdb.NodeStore.Scan.{for_each_populated_range, highest_populated_id}
use gpsxdb.NodeStore.Scan.Populated.{held_from, last_held, scans-held_from}
use gpsxdb.NodeStore.Wrapped.{update_implausible, update_wrapped, update_short_bitmap}

abbrev session : List Change
session = put 5 (1, 2) ∷ put 900_000 (3, 4) ∷ drop 5 ∷ []

select-apply_changes_example :
    Returns
      (apply_changes (create_file 10) session)
      (λ t. select t (pos 900_000) ≡ done (map_changes empty_map session (to_size (pos 900_000))))
select-apply_changes_example =
    select-apply_changes 10 session (pos 900_000) (omega arith) (omega arith) (omega arith)

update_implausible_example :
    update (create_file 10) (pos 200_000_000_000) (1, 2) ≡ done (create_file 10)
update_implausible_example =
    update_implausible (create_file 10) 200_000_000_000 (1, 2) (omega arith) (omega arith)
      (unfold create_file in omega arith)

-- Eleven records, of which the first is in use.
abbrev one_node : Store
one_node = record {
  size = 176;
  records = λ _. (7, 8);
  bm_size = 2;
  bm = λ i. if i == 0 then 1 else 0;
  max_id = pos 10;
}

one_node-IsValid : IsValid one_node
unfolding bitmap_get
one_node-IsValid = record {
  small = omega arith;
  tight = omega arith;
  bytes = λ i. ground arith;
  held = λ j e. ground (arith, bit-zero (j % 8) (omega arith));
}

update_wrapped_example :
    Returns (update one_node (pos (2 ^ 60 + 0)) (1, 2)) (λ t. view t 0 ≡ some (1, 2))
update_wrapped_example =
    update_wrapped one_node 0 (1, 2) one_node-IsValid (unfold bitmap_get bit in refl)

-- A bitmap of one byte for eleven records.
abbrev short_bitmap : Store
short_bitmap = record one_node { bm_size = 1 }

update_short_bitmap_example :
    Returns
      (update short_bitmap (pos 9) (1, 2))
      (λ t. (t.records 9 ≡ (1, 2)) × (select t (pos 9) ≡ done none))
update_short_bitmap_example =
    update_short_bitmap short_bitmap 9 (1, 2) (omega arith) (omega arith) (omega arith)
      (omega arith)

scans-held_from_example :
    (for_each_populated_range one_node 0 9 ≡ done (held_from one_node ((9 - 0) * 8) (0 * 8)))
    × (highest_populated_id one_node ≡ last_held one_node (4 * 8))
scans-held_from_example = scans-held_from one_node one_node-IsValid 0 9 4 (omega arith)

held_test : held_from one_node 72 0 ≡ (0, (7, 8)) ∷ []
unfolding bitmap_get bit
held_test = refl
