-- ===== src/NodeFile/RoundTrip.antt =====
-- A file that the writer wrote is loaded and searched as what was written.
use gpsxdb.Prelude.{
  ℕ, zero, suc, ◌+◌, ◌*◌, ◌%◌, ◌^◌, ◌<◌, ◌≡◌, refl, sym, ap, ◌∙◌, false, ltb, List, [], ◌∷◌, ◌++◌,
  arith, length, take, drop, drop-drop, All, get_or,
}
use gpsxdb.Prelude.Int.{ℤ}
use gpsxdb.Bytes.{Bytes, write_le, read_le, length-write_le}
use gpsxdb.Bytes.Words.{read_le-write_le}
use gpsxdb.NodeFile.{
  Node, Region, NodeFile, ok, c_string, name_field, write_floats, write_file, same_bytes,
  read_floats, parse_header, load, read_record, records, select,
}
use gpsxdb.NodeFile.Search.{◌<ℤ◌, find_node, IsAscending, select-find_node}
use gpsxdb.NodeFile.Written.{
  IsNode, IsFloat, nodes_bytes, tail_bytes, file_bytes, write_file-eq, length-name_field,
  length-write_floats, length-file_bytes,
}
use gpsxdb.NodeFile.Fields.{
  drop-prefix, take-prefix, c_string-name_field, records-nodes, read_floats-floats,
}

module _ (r : Region) (ns : List Node) where
  body : Bytes
  body = write_floats r.bbox ++ (write_le 4 r.created_at ++ nodes_bytes ns)

  drop-header : drop 20 (file_bytes r ns) ≡ name_field r.name ++ body
  unfolding write_le body
  drop-header = refl

  drop-name : drop 44 (file_bytes r ns) ≡ body
  drop-name =
      drop-drop (file_bytes r ns) 20 24
      ∙ ap (drop 24) drop-header
      ∙ drop-prefix 24 (name_field r.name) body (length-name_field r.name)

  drop-all : length r.bbox ≡ 4 → drop 64 (file_bytes r ns) ≡ nodes_bytes ns
  unfolding body
  drop-all h =
      let rest = write_le 4 r.created_at ++ nodes_bytes ns in
      drop-drop (file_bytes r ns) 44 20
      ∙ ap (drop 20) drop-name
      ∙ drop-drop body 16 4
      ∙ ap (drop 4)
          (drop-prefix 16 (write_floats r.bbox) rest (omega (arith, length-write_floats r.bbox)))
      ∙ drop-prefix 4 (write_le 4 r.created_at) (nodes_bytes ns) (length-write_le 4 r.created_at)

  loaded : NodeFile
  loaded = record {
    base = file_bytes r ns;
    record_count = length ns;
    region_name = take 23 (c_string r.name);
    bbox = r.bbox;
  }

  load-file_bytes :
      length r.bbox ≡ 4
      → All IsFloat r.bbox
      → length ns < 2 ^ 59
      → load (file_bytes r ns) ≡ ok loaded
  unfolding load parse_header loaded same_bytes
  load-file_bytes four floats few =
      let base = file_bytes r ns in
      let size = length-file_bytes r ns four in
      let big : ltb (length base) 64 ≡ false = ground arith in
      let whole : ltb (length base) ((64 + length ns * 24) % 2 ^ 64) ≡ false =
        (let e : (64 + length ns * 24) % 2 ^ 64 ≡ 64 + length ns * 24 = omega arith in
          ground arith) in
      let v : read_le 4 base 8 ≡ 1 =
        read_le-write_le 4 1 base 8 (write_le 8 (length ns) ++ tail_bytes r ns) (omega arith)
          refl in
      let c : read_le 8 base 12 ≡ length ns =
        read_le-write_le 8 (length ns) base 12 (tail_bytes r ns) (omega arith)
          (unfold write_le in refl) in
      let name : c_string (take 24 (drop 20 base)) ≡ take 23 (c_string r.name) =
        ap (λ x. c_string (take 24 x)) drop-header
        ∙ ap c_string (take-prefix 24 (name_field r.name) body (length-name_field r.name))
        ∙ c_string-name_field r.name in
      let box : read_floats 4 base 44 ≡ r.bbox =
        ap (λ k. read_floats k base 44) (sym four)
        ∙ read_floats-floats base (write_le 4 r.created_at ++ nodes_bytes ns) 44 r.bbox floats
            (unfold body in drop-name) in
      rw (big, v, c, whole, name, box) refl

  loaded-records : length r.bbox ≡ 4 → All IsNode ns → records (file_bytes r ns) 0 (length ns) ≡ ns
  loaded-records four nodes = records-nodes (file_bytes r ns) 0 ns nodes (drop-all four)

get_or-records :
    (base : Bytes) (i n k : ℕ) (d : Node)
    → k < n
    → get_or (records base i n) k d ≡ read_record base (i + k)
unfolding records
get_or-records base i zero k d h = absurd (omega arith)
get_or-records base i (suc n) zero d h = ap (read_record base) (omega arith)
get_or-records base i (suc n) (suc k) d h =
    get_or-records base (i + 1) n k d (omega arith) ∙ ap (read_record base) (omega arith)

-- Each id is below all later ones.
abbrev pub IsSorted : List Node → Type 0
IsSorted [] = Unit
IsSorted (n ∷ ns) = All (λ m. n.id <ℤ m.id) ns × IsSorted ns

All-get_or :
    (P : Node → Type 0) (ns : List Node) (k : ℕ) (d : Node)
    → All P ns
    → k < length ns
    → P (get_or ns k d)
All-get_or P [] k d h l = absurd (omega arith)
All-get_or P (n ∷ ns) zero d h l = h.0
All-get_or P (n ∷ ns) (suc k) d h l = All-get_or P ns k d h.1 (omega arith)

IsSorted-get_or :
    (ns : List Node) (i j : ℕ) (d : Node)
    → IsSorted ns
    → i < j
    → j < length ns
    → (get_or ns i d).id <ℤ (get_or ns j d).id
IsSorted-get_or [] i j d h l k = absurd (omega arith)
IsSorted-get_or (n ∷ ns) i zero d h l k = absurd (omega arith)
IsSorted-get_or (n ∷ ns) zero (suc j) d h l k =
    All-get_or (λ m. n.id <ℤ m.id) ns j d h.0 (omega arith)
IsSorted-get_or (n ∷ ns) (suc i) (suc j) d h l k =
    IsSorted-get_or ns i j d h.1 (omega arith) (omega arith)

record_of :
    (base : Bytes) (ns : List Node) (m : ℕ) (d : Node)
    → records base 0 (length ns) ≡ ns
    → m < length ns
    → get_or ns m d ≡ read_record base m
record_of base ns m d e h =
    ap (λ xs. get_or xs m d) (sym e)
    ∙ get_or-records base 0 (length ns) m d h
    ∙ ap (read_record base) (omega arith)

records-IsAscending :
    (base : Bytes) (ns : List Node)
    → records base 0 (length ns) ≡ ns
    → IsSorted ns
    → IsAscending base (length ns)
records-IsAscending base ns e h i j l k =
    let d = read_record base 0 in
    rw (← record_of base ns i d e (omega arith), ← record_of base ns j d e k)
      (IsSorted-get_or ns i j d h l k)

-- Nodes whose ids ascend, with 64-bit ids and doubles, fewer than 2 ^ 59, are written after one
-- another to the file of any region with a bounding box of four floats. The file is loaded without
-- an error, with their number, the bounding box and the first 23 bytes of the region's name; and
-- select then gives for any id the coordinates of the node that was written under it, or nothing.
pub select-write_file :
    (r : Region) (ns : List Node) (id : ℤ)
    → length r.bbox ≡ 4
    → All IsFloat r.bbox
    → All IsNode ns
    → IsSorted ns
    → length ns < 2 ^ 59
    → (f : NodeFile) × (load (write_file r ns) ≡ ok f)
      × (f.record_count ≡ length ns)
      × (f.bbox ≡ r.bbox)
      × (f.region_name ≡ take 23 (c_string r.name))
      × (select f id ≡ find_node id ns)
unfolding loaded
select-write_file r ns id four floats nodes sorted few =
    let same = loaded-records r ns four nodes in
    (
      loaded r ns,
      rw (write_file-eq r ns (omega arith)) (load-file_bytes r ns four floats few),
      refl,
      refl,
      refl,
      select-find_node (loaded r ns) id (records-IsAscending (file_bytes r ns) ns same sorted)
          ∙ ap (find_node id) same,
    )
