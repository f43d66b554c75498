-- ===== src/NodeFile.antt =====
-- `RegionalNodeMap` of src/RegionalNodeMap.cpp: a file of node coordinates, sorted by id, with a
-- header of 64 bytes. A file is the list of its bytes. The bounding box comes as four 32-bit
-- patterns, since the casts to `float` are the host's. Reads and writes of the file succeed.
pub mod Search
pub mod Written
pub mod Fields
pub mod RoundTrip
mod Tests
use gpsxdb.Prelude.{
  ℕ, zero, suc, ◌+◌, ◌-◌, ◌*◌, ◌/◌, ◌%◌, ◌^◌, Bool, true, false, not, ltb, leb, ◌==◌, if◌then◌else◌,
  List, [], ◌∷◌, ◌++◌, length, take, drop, replicate, get_or, Option, none, some,
}
use gpsxdb.Prelude.Int.{eqb_ℤ, ℤ, ltb_ℤ}
use gpsxdb.Bytes.{Bytes, Double, write_le, read_le}
use gpsxdb.Bytes.Signed.{to_i64, to_size}

abbrev pub header_size : ℕ
header_size = 64

abbrev pub record_size : ℕ
record_size = 24

-- "GPSXRNM1"
abbrev pub magic : Bytes
magic = b'G' ∷ b'P' ∷ b'S' ∷ b'X' ∷ b'R' ∷ b'N' ∷ b'M' ∷ b'1' ∷ []

abbrev pub version : ℕ
version = 1

pub record Node : Type 0 where
  pub id : ℤ
  pub lon_m : Double
  pub lat_m : Double

-- What the writer is told of the region: its name, the bounding box as four floats, and the time.
pub record Region : Type 0 where
  pub name : Bytes
  pub bbox : List ℕ
  pub created_at : ℕ

-- A text up to its terminator.
pub c_string : Bytes → Bytes
c_string [] = []
c_string (b ∷ bs) = if b == 0 then [] else b ∷ c_string bs

-- `strncpy` of 23 bytes into a zeroed buffer of 24.
pub name_field : Bytes → Bytes
name_field name = let cut = take 23 (c_string name) in cut ++ replicate (24 - length cut) 0

pub write_floats : List ℕ → Bytes
write_floats [] = []
write_floats (f ∷ fs) = write_le 4 f ++ write_floats fs

-- The header's fields fill its 64 bytes in this order.
pub header_bytes : Region → ℕ → Bytes
header_bytes r count =
    magic
    ++ (write_le 4 version
        ++ (write_le 8 count
            ++ (name_field r.name ++ (write_floats r.bbox ++ write_le 4 r.created_at))))

pub record Writer : Type 0 where
  pub out : Bytes
  pub count : ℕ
  pub finalized : Bool

-- The header is written with a count of 0 first.
unfoldable pub open_writer : Region → Writer
open_writer r = record { out = header_bytes r 0; count = 0; finalized = false }

pub node_bytes : Node → Bytes
node_bytes n = write_le 8 (to_size n.id) ++ (write_le 8 n.lon_m ++ write_le 8 n.lat_m)

pub append : Writer → Node → Writer
append w n = record w { out = w.out ++ node_bytes n; count = (w.count + 1) % 2 ^ 64 }

-- `fseek` to the count's offset, and eight bytes over what stands there.
pub finalize : Writer → Writer
finalize w =
    if w.finalized
    then w
    else record w { out = take 12 w.out ++ (write_le 8 w.count ++ drop 20 w.out); finalized = true }

pub append_all : Writer → List Node → Writer
append_all w [] = w
append_all w (n ∷ ns) = append_all (append w n) ns

-- A file as the exporters write it: every node in turn, then the count.
pub write_file : Region → List Node → Bytes
write_file r ns = (finalize (append_all (open_writer r) ns)).out

pub data LoadError : Type 0 where
  too_small bad_magic bad_version truncated : LoadError

pub record NodeFile : Type 0 where
  pub base : Bytes
  pub record_count : ℕ
  pub region_name : Bytes
  pub bbox : List ℕ

pub data Loaded : Type 0 where
  ok : NodeFile → Loaded
  err : LoadError → Loaded

-- `memcmp` of eight bytes.
unfoldable pub same_bytes : Bytes → Bytes → Bool
same_bytes [] bs = true
same_bytes (a ∷ as') [] = false
same_bytes (a ∷ as') (b ∷ bs) = if a == b then same_bytes as' bs else false

pub read_floats : ℕ → Bytes → ℕ → List ℕ
read_floats zero bs pos = []
read_floats (suc n) bs pos = read_le 4 bs pos ∷ read_floats n bs (pos + 4)

pub parse_header : Bytes → Loaded
parse_header base =
    if same_bytes magic base
    then (if read_le 4 base 8 == version
        then (let count = read_le 8 base 12 in
            if ltb (length base) ((header_size + count * record_size) % 2 ^ 64)
            then err truncated
            else ok (record {
              base = base;
              record_count = count;
              region_name = c_string (take 24 (drop 20 base));
              bbox = read_floats 4 base 44;
            }))
        else err bad_version)
    else err bad_magic

-- The constructor: `st_size` and the mapping, then the header.
pub load : Bytes → Loaded
load base = if ltb (length base) header_size then err too_small else parse_header base

-- `readRecord`.
unfoldable pub read_record : Bytes → ℕ → Node
read_record base i =
    let p = header_size + i * record_size in
    record {
      id = to_i64 (read_le 8 base p);
      lon_m = read_le 8 base (p + 8);
      lat_m = read_le 8 base (p + 16);
    }

-- The loop of `select`: the first index in `[lo, hi)` whose id is not below `id`, or `hi`.
unfoldable pub lower_bound : ℕ → (ℕ → ℤ) → ℤ → ℕ → ℕ → Option ℕ
lower_bound zero key id lo hi = none
lower_bound (suc fuel) key id lo hi = elim (ltb lo hi) [
  | true ↦
      let mid = lo + (hi - lo) / 2 in
      elim (ltb_ℤ (key mid) id) [
        | true ↦ lower_bound fuel key id (mid + 1) hi
        | false ↦ lower_bound fuel key id lo mid
      ]
  | false ↦ some lo
]

-- The rounds at least halve what is left, so one more than the count is enough fuel.
unfoldable pub select : NodeFile → ℤ → Option (Double × Double)
select f id =
    elim (lower_bound (suc f.record_count) (λ i. (read_record f.base i).id) id 0 f.record_count) [
      | none ↦ none
      | some lo ↦
          if leb f.record_count lo
          then none
          else (let n = read_record f.base lo in
              if eqb_ℤ n.id id then some (n.lon_m, n.lat_m) else none)
    ]

-- The records from `i` on, as the loops of `merge` read them.
pub records : Bytes → ℕ → ℕ → List Node
records base i zero = []
records base i (suc n) = read_record base i ∷ records base (i + 1) n

-- The three loops of `merge`: the nodes in the order in which they are appended.
unfoldable pub merge_nodes : List Node → List Node → List Node
merge_nodes [] ys = ys
merge_nodes (x ∷ xs) [] = x ∷ xs
merge_nodes (x ∷ xs) (y ∷ ys) = elim (ltb_ℤ x.id y.id) [
  | true ↦ x ∷ merge_nodes xs (y ∷ ys)
  | false ↦ elim (ltb_ℤ y.id x.id) [
    | true ↦ y ∷ merge_nodes (x ∷ xs) ys
    | false ↦ x ∷ merge_nodes xs ys
  ]
]

-- `merge` of two files that are open; name and bounding box are those of the first.
unfoldable pub merge : NodeFile → NodeFile → ℕ → Bytes
merge a b now =
    write_file (record { name = a.region_name; bbox = a.bbox; created_at = now })
      (merge_nodes (records a.base 0 a.record_count) (records b.base 0 b.record_count))
