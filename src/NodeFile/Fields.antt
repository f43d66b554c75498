-- ===== src/NodeFile/Fields.antt =====
-- The fields of a file, read back from the bytes that hold them.
use gpsxdb.Prelude.{
  ℕ, zero, suc, ◌+◌, ◌-◌, ◌*◌, ◌≡◌, refl, ap, subst, ◌∙◌, Bool-cases, inl, inr, replicate,
  length-take, ◌==◌, List, [], ◌∷◌, ◌++◌, arith, length, take, drop, drop-drop, drop-append_self,
  take-append_self, append_assoc, All,
}
use gpsxdb.Bytes.{Bytes, write_le, read_le, length-write_le}
use gpsxdb.Bytes.Signed.{to_size, to_i64-to_size, to_size-lt}
use gpsxdb.Bytes.Words.{read_le-write_le}
use gpsxdb.NodeFile.{
  Node, c_string, name_field, write_floats, node_bytes, read_floats, read_record, records,
}
use gpsxdb.NodeFile.Written.{IsNode, IsFloat, nodes_bytes, length-node_bytes}

pub drop-prefix : (n : ℕ) (xs ys : Bytes) → length xs ≡ n → drop n (xs ++ ys) ≡ ys
drop-prefix n xs ys h = subst (λ k. drop k (xs ++ ys) ≡ ys) h (drop-append_self xs ys)

pub take-prefix : (n : ℕ) (xs ys : Bytes) → length xs ≡ n → take n (xs ++ ys) ≡ xs
take-prefix n xs ys h = subst (λ k. take k (xs ++ ys) ≡ xs) h (take-append_self xs ys)

-- A name is read back up to its terminator or its 23 bytes.
c_string-padded :
    (k j : ℕ) (s : Bytes)
    → c_string (take k (c_string s) ++ replicate (suc j) 0) ≡ take k (c_string s)
unfolding c_string
c_string-padded zero j s = refl
c_string-padded (suc k) j [] = refl
c_string-padded (suc k) j (b ∷ s) = elim (Bool-cases (b == 0)) [
  | inl e ↦ rw (e, c_string) refl
  | inr e ↦ rw (e, c_string) (rw (e, c_string) (ap (λ x. b ∷ x) (c_string-padded k j s)))
]

pub c_string-name_field : (name : Bytes) → c_string (name_field name) ≡ take 23 (c_string name)
unfolding name_field
c_string-name_field name =
    let cut = take 23 (c_string name) in
    let zeros : 24 - length cut ≡ suc (23 - length cut) =
      omega (arith, length-take 23 (c_string name)) in
    ap (λ n. c_string (cut ++ replicate n 0)) zeros ∙ c_string-padded 23 (23 - length cut) name

read_record-node :
    (base rest : Bytes) (i : ℕ) (n : Node)
    → IsNode n
    → drop (64 + i * 24) base ≡ node_bytes n ++ rest
    → read_record base i ≡ n
unfolding read_record node_bytes write_le
read_record-node base rest i n (hi, hx, hy) h =
    let p = 64 + i * 24 in
    let a : read_le 8 base p ≡ to_size n.id =
      read_le-write_le 8 (to_size n.id) base p (write_le 8 n.lon_m ++ (write_le 8 n.lat_m ++ rest))
        (to_size-lt n.id hi) h in
    let b : read_le 8 base (p + 8) ≡ n.lon_m =
      read_le-write_le 8 n.lon_m base (p + 8) (write_le 8 n.lat_m ++ rest) hx
        (drop-drop base p 8 ∙ ap (drop 8) h) in
    let c : read_le 8 base (p + 16) ≡ n.lat_m =
      read_le-write_le 8 n.lat_m base (p + 16) rest hy (drop-drop base p 16 ∙ ap (drop 16) h) in
    rw (a, b, c, to_i64-to_size n.id hi) refl

pub records-nodes :
    (base : Bytes) (i : ℕ) (ns : List Node)
    → All IsNode ns
    → drop (64 + i * 24) base ≡ nodes_bytes ns
    → records base i (length ns) ≡ ns
unfolding records
records-nodes base i [] _ h = refl
records-nodes base i (n ∷ ns) (k, ks) h =
    let p : 64 + (i + 1) * 24 ≡ 64 + i * 24 + 24 = omega arith in
    let rest : drop (64 + (i + 1) * 24) base ≡ nodes_bytes ns =
      ap (λ j. drop j base) p
      ∙ drop-drop base (64 + i * 24) 24
      ∙ ap (drop 24) h
      ∙ drop-prefix 24 (node_bytes n) (nodes_bytes ns) (length-node_bytes n) in
    rw (read_record-node base (nodes_bytes ns) i n k h, records-nodes base (i + 1) ns ks rest) refl

pub read_floats-floats :
    (base rest : Bytes) (pos : ℕ) (fs : List ℕ)
    → All IsFloat fs
    → drop pos base ≡ write_floats fs ++ rest
    → read_floats (length fs) base pos ≡ fs
unfolding read_floats write_floats
read_floats-floats base rest pos [] h e = refl
read_floats-floats base rest pos (f ∷ fs) (k, ks) e =
    let next = append_assoc (write_le 4 f) (write_floats fs) rest in
    let first : read_le 4 base pos ≡ f =
      read_le-write_le 4 f base pos (write_floats fs ++ rest) (omega arith) (e ∙ next) in
    let four : drop (pos + 4) base ≡ write_floats fs ++ rest =
      drop-drop base pos 4
      ∙ ap (drop 4) (e ∙ next)
      ∙ drop-prefix 4 (write_le 4 f) (write_floats fs ++ rest) (length-write_le 4 f) in
    rw (first, read_floats-floats base rest (pos + 4) fs ks four) refl
