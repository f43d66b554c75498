-- ===== src/Buffers/Tests.antt =====
-- A way, an area and a road, with a buffer of one row, and a batch with a bad row.
use gpsxdb.Prelude.{arith, ℕ, zero, suc, ◌≡◌, ◌≢◌, refl, sym, subst, List, [], ◌∷◌, All, none, some}
use gpsxdb.Prelude.Int.{pos}
use gpsxdb.Nav.{Kind}
use gpsxdb.Import.Names.{highway_text, road_text, yes_text}
use gpsxdb.Buffers.{
  Record, Copied, committed, bad_line, failed, ok, ◌>>=◌, empty_loading, try_copy_batch,
}
use gpsxdb.Buffers.Insert.{Insert, insert_all, finish}
use gpsxdb.Buffers.Expected.{rows_of, tags_of}
use gpsxdb.Buffers.Complete.{loaded, insert_all-loaded}
use gpsxdb.Buffers.Retry.{Copies, try_copy_batch-Copies}

abbrev always : ℕ → Copied
always n = committed

abbrev an_insert : Kind → ℕ → Insert
an_insert k n = record {
  kind = k;
  id = pos n;
  name = [];
  at = none;
  tags = (highway_text, road_text) ∷ [];
  geog = yes_text;
}

abbrev four_inserts : List Insert
four_inserts =
    an_insert Kind.way 4
    ∷ an_insert Kind.area 5
    ∷ an_insert Kind.relation 6
    ∷ an_insert Kind.road 6
    ∷ []

abbrev IsNode : Kind → Type 0
IsNode Kind.node = Unit
IsNode Kind.way = ⊥
IsNode Kind.area = ⊥
IsNode Kind.road = ⊥
IsNode Kind.relation = ⊥

no_node : (k : Kind) → ¬ IsNode k → k ≢ Kind.node
no_node k h e = h (subst IsNode (sym e) tt)

four_inserts_are : All (λ i. i.kind ≢ Kind.node) four_inserts
four_inserts_are = (
  no_node Kind.way (λ h. h),
  (no_node Kind.area (λ h. h), (no_node Kind.relation (λ h. h), (no_node Kind.road (λ h. h), tt))),
)

insert_all-loaded_example :
    (n : ℕ) × ((insert_all always 1 four_inserts empty_loading >>= finish always 1)
      ≡ ok (loaded (λ k. rows_of k four_inserts) (λ k. tags_of k four_inserts) n))
insert_all-loaded_example = insert_all-loaded always (λ n. refl) 1 four_inserts four_inserts_are

abbrev a_record : ℕ → Record
a_record n = record { id = pos n; row = record { name = []; geog = some yes_text; at = none } }

abbrev three_records : List Record
three_records = a_record 1 ∷ a_record 2 ∷ a_record 3 ∷ []

-- The second row is bad, then the connection is lost.
abbrev second_bad : ℕ → Copied
second_bad zero = bad_line 2
second_bad (suc n) = failed

try_copy_batch-Copies_example :
    Copies second_bad 0 [] three_records (try_copy_batch second_bad 3 0 [] three_records)
try_copy_batch-Copies_example = try_copy_batch-Copies second_bad 3 0 [] three_records (omega arith)
