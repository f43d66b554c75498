-- ===== src/NodeStore/Shards/Entries.antt =====
-- The entries of a shard as bytes, and what writing one of them does to the store.
use gpsxdb.Prelude.{
  ℕ, ◌+◌, ◌-◌, ◌*◌, ◌^◌, ◌<◌, ◌≤◌, ◌≡◌, refl, sym, ◌∙◌, ap, true, leb, ltb, ◌==◌, if◌then◌else◌,
  Bool-cases, inl, inr, arith, List, [], ◌∷◌, ◌++◌, length, length-append, take-append_self,
  drop-append_self, Option, some, append-nil,
}
use gpsxdb.Prelude.Int.{pos}
use gpsxdb.Bytes.{Bytes, write_le, read_le, length-write_le}
use gpsxdb.Bytes.Words.{read_le-write_le}
use gpsxdb.Bytes.Signed.{to_size, to_i64}
use gpsxdb.NodeStore.{Coord, Store, replace, write_to_merged}
use gpsxdb.NodeStore.Writes.{Returns, write_to_merged-Writes, write_to_merged-beyond}
use gpsxdb.NodeStore.Map.{Models}
use gpsxdb.NodeStore.Shards.{shard_record, write_bytes}

-- A node as it is inserted: an id whose offset does not wrap, and two doubles.
abbrev pub Entry : Type 0
Entry = ℕ × Coord

abbrev pub IsEntry : Entry → Type 0
IsEntry (n, (x, y)) = (n < 2 ^ 60 - 1) × (x < 2 ^ 64) × (y < 2 ^ 64)

abbrev pub entry_bytes : Entry → Bytes
entry_bytes (n, p) = shard_record (pos n) p

abbrev pub entries_bytes : List Entry → Bytes
entries_bytes [] = []
entries_bytes (e ∷ es) = entry_bytes e ++ entries_bytes es

-- The map that the entries leave, one after the other, of those up to `max_id`.
abbrev pub merged : ℕ → (ℕ → Option Coord) → List Entry → ℕ → Option Coord
merged max_id f [] = f
merged max_id f ((n, p) ∷ es) = merged max_id (if leb n max_id then replace f n (some p) else f) es

-- The store holds the map, at the size for `max_id`.
abbrev pub Holds : ℕ → (ℕ → Option Coord) → Store → Type 0
Holds max_id f s = Models f s × (s.size ≡ (max_id + 1) * 16)

pub length-entry_bytes : (e : Entry) → length (entry_bytes e) ≡ 24
unfolding shard_record
length-entry_bytes (n, (x, y)) =
    length-append (write_le 8 (to_size (pos n))) (write_le 8 x ++ write_le 8 y)
    ∙ (let l = length-append (write_le 8 x) (write_le 8 y) in
        let a = length-write_le 8 (to_size (pos n)) in
        let b = length-write_le 8 x in let c = length-write_le 8 y in omega arith)

write_to_merged-Holds :
    (m n : ℕ) (p : Coord) (f : ℕ → Option Coord) (s : Store)
    → n < 2 ^ 60 - 1
    → Holds m f s
    → Returns (write_to_merged s (pos n) p) (Holds m (if leb n m then replace f n (some p) else f))
write_to_merged-Holds m n p f s h (k, z) = elim (Bool-cases (leb n m)) [
  | inl e ↦
      let room : n * 16 + 16 ≤ s.size = (let le : n ≤ m = ground arith in omega arith) in
      let (t, run, (w, same)) = write_to_merged-Writes s k.valid n room p in
      (
        t,
        run,
        rw e (
          record {
            valid = w.valid;
            reads = λ j. w.views j ∙ ap (λ o. if j == n then some p else o) (k.reads j);
          },
          same ∙ z,
        ),
      )
  | inr e ↦
      let past : m < n = ground arith in
      (s, write_to_merged-beyond s n p h (omega arith), rw e (k, z))
]

write_bytes-eq :
    (e : Entry) (s : Store)
    → IsEntry e
    → write_bytes s (entry_bytes e) ≡ write_to_merged s (pos e.0) e.1
unfolding write_bytes shard_record to_i64 to_size write_le
write_bytes-eq (n, (x, y)) s (hn, hx, hy) =
    let bytes = entry_bytes (n, (x, y)) in
    let rest = write_le 8 x ++ write_le 8 y in
    let a : read_le 8 bytes 0 ≡ n = read_le-write_le 8 n bytes 0 rest (omega arith) refl in
    let b : read_le 8 bytes 8 ≡ x =
      read_le-write_le 8 x bytes 8 (write_le 8 y) (omega arith) refl in
    let c : read_le 8 bytes 16 ≡ y =
      read_le-write_le 8 y bytes 16 [] (omega arith) (sym (append-nil (write_le 8 y))) in
    let id : to_i64 (read_le 8 bytes 0) ≡ pos n =
      rw a (let e : ltb n (2 ^ 63) ≡ true = ground arith in rw e) in
    rw (id, b, c) refl

pub write_bytes-Holds :
    (m : ℕ) (e : Entry) (f : ℕ → Option Coord) (s : Store)
    → IsEntry e
    → Holds m f s
    → Returns
        (write_bytes s (entry_bytes e))
        (Holds m (if leb e.0 m then replace f e.0 (some e.1) else f))
write_bytes-Holds m e f s ok h =
    let (t, run, k) = write_to_merged-Holds m e.0 e.1 f s ok.0 h in
    (t, write_bytes-eq e s ok ∙ run, k)

-- The first 24 bytes of entries are those of the first entry.
pub take_entry :
    (bytes rest : Bytes) (es : List Entry)
    → length bytes ≡ 24
    → bytes ++ rest ≡ entries_bytes es
    → (e : Entry) × (fs : List Entry) × (es ≡ e ∷ fs)
      × (bytes ≡ entry_bytes e)
      × (rest ≡ entries_bytes fs)
take_entry bytes rest [] l h =
    let n = ap length h in absurd (omega (arith, length-append bytes rest))
take_entry bytes rest (e ∷ es) l h =
    let k : length bytes ≡ length (entry_bytes e) = l ∙ sym (length-entry_bytes e) in
    (
      e,
      es,
      refl,
      sym (take-append_self bytes rest)
          ∙ rw (k, h) (take-append_self (entry_bytes e) (entries_bytes es)),
      sym (drop-append_self bytes rest)
          ∙ rw (k, h) (drop-append_self (entry_bytes e) (entries_bytes es)),
    )
