-- ===== src/NodeStore/Shards/Stream.antt =====
-- Wherever LZ4 ends an output, the records of a shard are written as those of the whole data.
use gpsxdb.Prelude.{
  ℕ, zero, suc, ◌-◌, ◌<◌, ◌≤◌, ◌≡◌, refl, sym, ◌∙◌, ap, leb, ltb, if◌then◌else◌, Bool-cases, inl,
  inr, arith, List, [], ◌∷◌, ◌++◌, append_assoc, length, length-append, length-take, length-drop,
  take, drop, take-append-drop, All, Option, some,
}
use gpsxdb.Bytes.{Bytes}
use gpsxdb.NodeStore.{Coord, Store, Access, done, replace}
use gpsxdb.NodeStore.Writes.{Returns}
use gpsxdb.Wkb.Encode.{concat}
use gpsxdb.NodeStore.Shards.{◌>>=◌, write_bytes, full_records, process_output, process_outputs}
use gpsxdb.NodeStore.Shards.Entries.{
  Entry, IsEntry, entry_bytes, entries_bytes, merged, Holds, length-entry_bytes, write_bytes-Holds,
  take_entry,
}

-- `r` ends with the store at the map `f'` and some bytes, which with those to come are the entries
-- that are left to be written.
abbrev Scanned : ℕ → (ℕ → Option Coord) → List Entry → Bytes → Access (Store × Bytes) → Type 0
Scanned m f es rest r =
    (t : Store) × (left : Bytes) × (f' : ℕ → Option Coord) × (fs : List Entry) × (r
      ≡ done (t, left))
    × Holds m f' t
    × (left ++ rest ≡ entries_bytes fs)
    × (merged m f' fs ≡ merged m f es)
    × (length left < 24)
    × All IsEntry fs

-- One record, and what comes after it.
write_bytes-Scanned :
    (m : ℕ) (f : ℕ → Option Coord) (s : Store) (bytes tail rest : Bytes) (es : List Entry)
    (go : Store → Access (Store × Bytes))
    → length bytes ≡ 24
    → bytes ++ (tail ++ rest) ≡ entries_bytes es
    → All IsEntry es
    → Holds m f s
    → ((f' : ℕ → Option Coord) (t : Store) (fs : List Entry)
        → tail ++ rest ≡ entries_bytes fs
        → All IsEntry fs
        → Holds m f' t
        → Scanned m f' fs rest (go t))
    → Scanned m f es rest (write_bytes s bytes >>= go)
write_bytes-Scanned m f s bytes tail rest es go l h ok k next =
    let (e, fs, same, first, others) = take_entry bytes (tail ++ rest) es l h in
    let oks : IsEntry e × All IsEntry fs = rw same at ok in
    let (t, run, held) = write_bytes-Holds m e f s oks.0 k in
    rw (first, run, same)
      (next (if leb e.0 m then replace f e.0 (some e.1) else f) t fs others oks.1 held)

full_records-Scanned :
    (fuel m : ℕ) (f : ℕ → Option Coord) (s : Store) (p rest : Bytes) (es : List Entry)
    → length p ≤ fuel
    → p ++ rest ≡ entries_bytes es
    → All IsEntry es
    → Holds m f s
    → Scanned m f es rest (full_records fuel p s)
unfolding full_records
full_records-Scanned zero m f s p rest es l h ok k =
    (s, p, f, es, refl, k, h, refl, omega arith, ok)
full_records-Scanned (suc fuel) m f s p rest es l h ok k = elim (Bool-cases (leb 24 (length p))) [
  | inr e ↦ rw (e, full_records) (s, p, f, es, refl, k, h, refl, ground arith, ok)
  | inl e ↦
      let long : 24 ≤ length p = ground arith in
      let taken : length (take 24 p) ≡ 24 = length-take 24 p ∙ omega arith in
      let split : take 24 p ++ (drop 24 p ++ rest) ≡ entries_bytes es =
        sym (append_assoc (take 24 p) (drop 24 p) rest) ∙ rw (take-append-drop 24 p) h in
      rw (e, full_records)
        (write_bytes-Scanned m f s (take 24 p) (drop 24 p) rest es (full_records fuel (drop 24 p))
          taken split ok k
          (λ f' t fs h' ok' k'.
            full_records-Scanned fuel m f' t (drop 24 p) rest fs (omega (arith, length-drop 24 p))
              h' ok' k'))
]

process_output-Scanned :
    (m : ℕ) (f : ℕ → Option Coord) (s : Store) (partial p rest : Bytes) (es : List Entry)
    → length partial < 24
    → partial ++ (p ++ rest) ≡ entries_bytes es
    → All IsEntry es
    → Holds m f s
    → Scanned m f es rest (process_output partial p s)
unfolding process_output
process_output-Scanned m f s [] p rest es l h ok k =
    full_records-Scanned (length p) m f s p rest es (omega arith) h ok k
process_output-Scanned m f s (b ∷ bs) p rest es l h ok k =
    let partial = b ∷ bs in
    let need = 24 - length partial in
    elim (Bool-cases (ltb (length p) need)) [
      | inl e ↦
          rw (e, process_output)
            (
              s,
              partial ++ p,
              f,
              es,
              refl,
              k,
              append_assoc partial p rest ∙ h,
              refl,
              (let short : length p < need = ground arith in
                  omega (arith, length-append partial p)),
              ok,
            )
      | inr e ↦
          let long : need ≤ length p = ground arith in
          let full : length (partial ++ take need p) ≡ 24 =
            length-append partial (take need p) ∙ omega (arith, length-take need p) in
          let split : (partial ++ take need p) ++ (drop need p ++ rest) ≡ entries_bytes es =
            append_assoc partial (take need p) (drop need p ++ rest)
            ∙ ap (λ x. partial ++ x)
                (sym (append_assoc (take need p) (drop need p) rest) ∙ rw (take-append-drop need p))
            ∙ h in
          rw (e, process_output)
            (write_bytes-Scanned m f s (partial ++ take need p) (drop need p) rest es
              (full_records (length p) (drop need p)) full split ok k
              (λ f' t fs h' ok' k'.
                full_records-Scanned (length p) m f' t (drop need p) rest fs
                  (omega (arith, length-drop need p)) h' ok' k'))
    ]

-- However the bytes of the entries are divided into outputs, all entries are written, in their order.
pub process_outputs-Holds :
    (ps : List Bytes) (m : ℕ) (f : ℕ → Option Coord) (s : Store) (partial : Bytes) (es : List Entry)
    → length partial < 24
    → partial ++ concat ps ≡ entries_bytes es
    → All IsEntry es
    → Holds m f s
    → Returns (process_outputs ps partial s) (Holds m (merged m f es))
unfolding process_outputs concat
process_outputs-Holds [] m f s partial [] l h ok k = (s, refl, k)
process_outputs-Holds [] m f s partial (e ∷ es) l h ok k =
    let n = ap length h in
    absurd (
      omega (
        arith,
        length-append partial [],
        length-append (entry_bytes e) (entries_bytes es),
        length-entry_bytes e,
      ))
process_outputs-Holds (p ∷ ps) m f s partial es l h ok k =
    let (t, left, f', fs, run, held, h', same, l', ok') =
      process_output-Scanned m f s partial p (concat ps) es l h ok k in
    let (u, run', held') = process_outputs-Holds ps m f' t left fs l' h' ok' held in
    (u, rw (run, process_outputs) run', rw (← same) held')
