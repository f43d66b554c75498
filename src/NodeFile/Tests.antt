-- ===== src/NodeFile/Tests.antt =====
-- The theorems of the node file at concrete inputs.
use gpsxdb.Prelude.{◌≡◌, ◌++◌, refl, List, [], ◌∷◌, length, take, replicate, arith}
use gpsxdb.Prelude.Int.{pos, negsuc}
use gpsxdb.Bytes.{Bytes}
use gpsxdb.NodeFile.{
  Node, Region, NodeFile, ok, load, write_file, c_string, read_record, records, select,
}
use gpsxdb.NodeFile.Search.{IsAscending, find_node, select-find_node}
use gpsxdb.NodeFile.RoundTrip.{select-write_file}

-- Nodes 3 and 9.
abbrev two_nodes : NodeFile
two_nodes = record {
  base =
      replicate 64 0
      ++ ((3 ∷ replicate 7 0)
          ++ (replicate 8 1 ++ (replicate 8 2 ++ ((9 ∷ replicate 7 0) ++ replicate 16 4))));
  record_count = 2;
  region_name = [];
  bbox = [];
}

two_nodes-IsAscending : IsAscending two_nodes.base 2
unfolding read_record gpsxdb.Bytes.read_le gpsxdb.Bytes.Signed.to_i64
two_nodes-IsAscending i j h k =
    let (first, second) : (i ≡ 0) × (j ≡ 1) = omega arith in rw (first, second) (omega arith)

select-find_node_example : select two_nodes (pos 9) ≡ find_node (pos 9) (records two_nodes.base 0 2)
select-find_node_example = select-find_node two_nodes (pos 9) two_nodes-IsAscending

abbrev region : Region
region = record { name = b'a' ∷ b'b' ∷ []; bbox = 1 ∷ 2 ∷ 3 ∷ 4 ∷ []; created_at = 5 }

abbrev three_nodes : List Node
three_nodes =
    record { id = negsuc 6; lon_m = 10; lat_m = 11 }
    ∷ record { id = pos 3; lon_m = 20; lat_m = 21 }
    ∷ record { id = pos 9; lon_m = 30; lat_m = 31 }
    ∷ []

select-write_file_example :
    (f : NodeFile) × (load (write_file region three_nodes) ≡ ok f)
    × (f.record_count ≡ length three_nodes)
    × (f.bbox ≡ region.bbox)
    × (f.region_name ≡ take 23 (c_string region.name))
    × (select f (pos 3) ≡ find_node (pos 3) three_nodes)
select-write_file_example =
    select-write_file region three_nodes (pos 3) refl (omega arith) (omega arith) (omega arith)
      (omega arith)
