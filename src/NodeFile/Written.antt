-- ===== src/NodeFile/Written.antt =====
-- A file that the writer wrote, as the bytes of its fields.
use gpsxdb.Prelude.{
  ℕ, ◌+◌, ◌-◌, ◌*◌, ◌%◌, ◌^◌, ◌<◌, ◌≡◌, refl, sym, ap, ap₂, append-nil, ◌∙◌, false, List, [], ◌∷◌,
  ◌++◌, arith, length, length-append, take, length-take, length-replicate, replicate, append_assoc,
}
use gpsxdb.Bytes.{Bytes, write_le, length-write_le}
use gpsxdb.Bytes.Signed.{to_size, IsI64}
use gpsxdb.NodeFile.{
  Node, Region, Writer, magic, version, c_string, name_field, write_floats, header_bytes,
  open_writer, node_bytes, append, finalize, append_all, write_file,
}

abbrev pub IsNode : Node → Type 0
IsNode n = IsI64 n.id × (n.lon_m < 2 ^ 64) × (n.lat_m < 2 ^ 64)

abbrev pub IsFloat : ℕ → Type 0
IsFloat f = f < 2 ^ 32

abbrev pub nodes_bytes : List Node → Bytes
nodes_bytes [] = []
nodes_bytes (n ∷ ns) = node_bytes n ++ nodes_bytes ns

append_all-eq :
    (ns : List Node) (w : Writer)
    → w.count + length ns < 2 ^ 64
    → append_all w ns ≡ record w { out = w.out ++ nodes_bytes ns; count = w.count + length ns }
unfolding append_all append
append_all-eq [] w h =
    ap₂ (λ out count. record w { out = out; count = count }) (sym (append-nil w.out)) (omega arith)
append_all-eq (n ∷ ns) w h =
    let one : (w.count + 1) % 2 ^ 64 ≡ w.count + 1 = omega arith in
    append_all-eq ns (append w n) (unfold append in rw one (omega arith))
    ∙ ap₂ (λ out count. record w { out = out; count = count })
        (append_assoc w.out (node_bytes n) (nodes_bytes ns)) (rw one (omega arith))

-- What stands behind the count in a file.
abbrev pub tail_bytes : Region → List Node → Bytes
tail_bytes r ns =
    name_field r.name ++ (write_floats r.bbox ++ (write_le 4 r.created_at ++ nodes_bytes ns))

abbrev pub file_bytes : Region → List Node → Bytes
file_bytes r ns = magic ++ (write_le 4 version ++ (write_le 8 (length ns) ++ tail_bytes r ns))

tail-append :
    (r : Region) (ns : List Node)
    → (name_field r.name ++ (write_floats r.bbox ++ write_le 4 r.created_at)) ++ nodes_bytes ns
      ≡ tail_bytes r ns
tail-append r ns =
    append_assoc (name_field r.name) (write_floats r.bbox ++ write_le 4 r.created_at)
      (nodes_bytes ns)
    ∙ ap (λ x. name_field r.name ++ x)
        (append_assoc (write_floats r.bbox) (write_le 4 r.created_at) (nodes_bytes ns))

appended : (r : Region) (ns : List Node) → Writer
appended r ns = record {
  out = header_bytes r 0 ++ nodes_bytes ns;
  count = length ns;
  finalized = false;
}

finalize-appended : (r : Region) (ns : List Node) → (finalize (appended r ns)).out ≡ file_bytes r ns
unfolding finalize appended header_bytes write_le
finalize-appended r ns =
    ap (λ x. magic ++ (write_le 4 version ++ (write_le 8 (length ns) ++ x))) (tail-append r ns)

pub write_file-eq :
    (r : Region) (ns : List Node) → length ns < 2 ^ 64 → write_file r ns ≡ file_bytes r ns
unfolding write_file open_writer appended
write_file-eq r ns h =
    ap (λ w. (finalize w).out)
      (append_all-eq ns (open_writer r) (omega arith)
        ∙ ap
            (λ n. record { out = header_bytes r 0 ++ nodes_bytes ns; count = n; finalized = false })
            (omega arith))
    ∙ finalize-appended r ns

pub length-name_field : (name : Bytes) → length (name_field name) ≡ 24
unfolding name_field
length-name_field name =
    let cut = take 23 (c_string name) in
    length-append cut (replicate (24 - length cut) 0)
    ∙ omega (arith, length-take 23 (c_string name), length-replicate {A = ℕ} (24 - length cut) 0)

pub length-write_floats : (fs : List ℕ) → length (write_floats fs) ≡ length fs * 4
unfolding write_floats
length-write_floats [] = refl
length-write_floats (f ∷ fs) = omega (
  arith,
  length-append (write_le 4 f) (write_floats fs),
  length-write_le 4 f,
  length-write_floats fs,
)

pub length-node_bytes : (n : Node) → length (node_bytes n) ≡ 24
unfolding node_bytes
length-node_bytes n = omega (
  arith,
  length-append (write_le 8 (to_size n.id)) (write_le 8 n.lon_m ++ write_le 8 n.lat_m),
  length-append (write_le 8 n.lon_m) (write_le 8 n.lat_m),
  length-write_le 8 (to_size n.id),
  length-write_le 8 n.lon_m,
  length-write_le 8 n.lat_m,
)

pub length-nodes_bytes : (ns : List Node) → length (nodes_bytes ns) ≡ length ns * 24
length-nodes_bytes [] = refl
length-nodes_bytes (n ∷ ns) = omega (
  arith,
  length-append (node_bytes n) (nodes_bytes ns),
  length-node_bytes n,
  length-nodes_bytes ns,
)

pub length-file_bytes :
    (r : Region) (ns : List Node)
    → length r.bbox ≡ 4
    → length (file_bytes r ns) ≡ 64 + length ns * 24
unfolding write_le
length-file_bytes r ns h = omega (
  arith,
  length-append (name_field r.name)
      (write_floats r.bbox ++ (write_le 4 r.created_at ++ nodes_bytes ns)),
  length-append (write_floats r.bbox) (write_le 4 r.created_at ++ nodes_bytes ns),
  length-name_field r.name,
  length-write_floats r.bbox,
  length-nodes_bytes ns,
)
