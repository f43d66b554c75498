-- ===== src/NodeStore/Scan/Populated.antt =====
-- The scans of the bitmap find what the store holds: skipping the bytes that are zero loses nothing.
use gpsxdb.Prelude.{
  ℕ, zero, suc, ◌+◌, ◌-◌, ◌*◌, ◌/◌, ◌%◌, ◌^◌, ◌<◌, ◌≤◌, ◌≡◌, min, refl, sym, ◌∙◌, ap, true, false,
  ltb, leb, ◌==◌, ==_iff, Bool-cases, Option-cases, inl, inr, arith, List, [], ◌∷◌, ◌++◌,
  append-nil, Option, none, some,
}
use gpsxdb.Prelude.Int.{ℤ, pos, negsuc}
use gpsxdb.Bytes.Bits.{bit, bit-zero}
use gpsxdb.Bytes.Signed.{to_size}
use gpsxdb.NodeStore.{Coord, Store, done, bitmap_get, read_record}
use gpsxdb.NodeStore.Laws.{IsValid, view}
use gpsxdb.NodeStore.Scan.{
  scan_bits, scan_bytes, for_each_populated_range, top_bit, top_id, highest_populated_id,
}

-- What the store holds of `k` ids from `id` on, in ascending order.
abbrev pub held_from : Store → ℕ → ℕ → List (ℕ × Coord)
held_from s zero id = []
held_from s (suc k) id =
    let rest = held_from s k (suc id) in elim (view s id) [ none ↦ rest | some p ↦ (id, p) ∷ rest ]

-- The highest id below `n` that the store holds, or -1.
abbrev pub last_held : Store → ℕ → ℤ
last_held s zero = negsuc 0
last_held s (suc n) = elim (view s n) [ none ↦ last_held s n | some p ↦ pos n ]

held_from-append :
    (s : Store) (j k id : ℕ) → held_from s (j + k) id ≡ held_from s j id ++ held_from s k (id + j)
held_from-append s zero k id =
    let e : id + 0 ≡ id = omega arith in rw e (ap (λ n. held_from s n id) (omega arith))
held_from-append s (suc j) k id =
    let e : suc j + k ≡ suc (j + k) = omega arith in
    let e' : id + suc j ≡ suc id + j = omega arith in
    rw (e, e')
      (elim (Option-cases (view s id)) [
        | inl h ↦ rw (h, held_from) (held_from-append s j k (suc id))
        | inr (p, h) ↦ rw (h, held_from) (ap (λ x. (id, p) ∷ x) (held_from-append s j k (suc id)))
      ])

module _ (s : Store) (v : IsValid s) where
  get_bit :
      (byte i : ℕ)
      → i < 8
      → byte < s.bm_size
      → bitmap_get s.bm s.bm_size (byte * 8 + i) ≡ bit (s.bm byte) i
  unfolding bitmap_get
  get_bit byte i h l =
      let e : (byte * 8 + i) / 8 ≡ byte = omega arith in
      let f : (byte * 8 + i) % 8 ≡ i = omega arith in
      let g : leb s.bm_size byte ≡ false = ground arith in rw (e, f, g)

  scan_bits-held_from :
      (byte k i : ℕ)
      → byte < s.bm_size
      → i + k ≡ 8
      → scan_bits s byte k i ≡ done (held_from s k (byte * 8 + i))
  unfolding scan_bits read_record to_size
  scan_bits-held_from byte zero i l h = refl
  scan_bits-held_from byte (suc k) i l h =
      let step : byte * 8 + suc i ≡ suc (byte * 8 + i) = omega arith in
      let ih : scan_bits s byte k (suc i) ≡ done (held_from s k (suc (byte * 8 + i))) =
        rw (← step) (scan_bits-held_from byte k (suc i) l (omega arith)) in
      let id = byte * 8 + i in
      let got = get_bit byte i (omega arith) l in
      elim (Bool-cases (bit (s.bm byte) i)) [
        | inr e ↦ rw (e, scan_bits, held_from, got, e) ih
        | inl e ↦
            let fits : id * 16 + 16 ≤ s.size = v.held id (got ∙ e) in
            let a : (id * 16 % 2 ^ 64 + 16) % 2 ^ 64 ≡ id * 16 + 16 = omega (arith, v.small) in
            let b : id * 16 % 2 ^ 64 ≡ id * 16 = omega (arith, v.small) in
            let c : ltb s.size (id * 16 + 16) ≡ false = ground arith in
            let d : leb (id * 16 + 16) s.size ≡ true = ground arith in
            let slot : id * 16 / 16 ≡ id = omega arith in
            rw (e, scan_bits, a, c, b, d, slot, ih, held_from, got, e) refl
      ]

  held_from-none :
      (k id : ℕ) → ((j : ℕ) → id ≤ j → j < id + k → view s j ≡ none) → held_from s k id ≡ []
  held_from-none zero id h = refl
  held_from-none (suc k) id h =
      rw (h id (omega arith) (omega arith), held_from)
        (held_from-none k (suc id) (λ j a b. h j (omega arith) (omega arith)))

  -- A byte that is zero holds none of its ids.
  zero_byte : (byte j : ℕ) → s.bm byte ≡ 0 → j / 8 ≡ byte → view s j ≡ none
  unfolding bitmap_get
  zero_byte byte j e f =
      let b : bit (s.bm (j / 8)) (j % 8) ≡ false = rw (f, e) (bit-zero (j % 8) (omega arith)) in
      elim (Bool-cases (leb s.bm_size (j / 8))) [ inl g ↦ rw g | inr g ↦ rw (g, b) ]

  beyond_bitmap : (j : ℕ) → s.bm_size ≤ j / 8 → view s j ≡ none
  unfolding bitmap_get
  beyond_bitmap j h = let g : leb s.bm_size (j / 8) ≡ true = ground arith in rw g

  scan_bytes-held_from :
      (k byte : ℕ)
      → k ≤ s.bm_size - byte
      → scan_bytes s k byte ≡ done (held_from s (k * 8) (byte * 8))
  unfolding scan_bytes
  scan_bytes-held_from zero byte h = refl
  scan_bytes-held_from (suc k) byte h =
      let size : suc k * 8 ≡ 8 + k * 8 = omega arith in
      let step : byte * 8 + 8 ≡ suc byte * 8 = omega arith in
      let z : byte * 8 + 0 ≡ byte * 8 = omega arith in
      let ih = scan_bytes-held_from k (suc byte) (omega arith) in
      let split : held_from s (suc k * 8) (byte * 8)
          ≡ held_from s 8 (byte * 8) ++ held_from s (k * 8) (suc byte * 8) =
        rw (size, ← step) (held_from-append s 8 (k * 8) (byte * 8)) in
      elim (Bool-cases (s.bm byte == 0)) [
        | inl e ↦
            let empty =
              held_from-none 8 (byte * 8)
                (λ j a b. zero_byte byte j ((==_iff (s.bm byte) 0).0 e) (omega arith)) in
            rw (e, scan_bytes, split, empty) ih
        | inr e ↦
            let here : scan_bits s byte 8 0 ≡ done (held_from s 8 (byte * 8)) =
              rw (← z) (scan_bits-held_from byte 8 0 (omega arith) refl) in
            rw (e, scan_bytes, here, ih, split) refl
      ]

  -- The bytes of a range beyond the bitmap hold no id.
  range-held_from :
      (byte_start byte_end : ℕ)
      → for_each_populated_range s byte_start byte_end
        ≡ done (held_from s ((byte_end - byte_start) * 8) (byte_start * 8))
  unfolding for_each_populated_range
  range-held_from byte_start byte_end =
      let k = min byte_end s.bm_size - byte_start in
      let rest = (byte_end - byte_start) * 8 - k * 8 in
      let size : (byte_end - byte_start) * 8 ≡ k * 8 + rest = omega arith in
      let empty : held_from s rest (byte_start * 8 + k * 8) ≡ [] =
        held_from-none rest (byte_start * 8 + k * 8) (λ j a b. beyond_bitmap j (omega arith)) in
      scan_bytes-held_from k byte_start (omega arith)
      ∙ ap done (
          sym (
            ap (λ n. held_from s n (byte_start * 8)) size
            ∙ held_from-append s (k * 8) rest (byte_start * 8)
            ∙ rw empty (append-nil (held_from s (k * 8) (byte_start * 8)))))

  abbrev top_of : Option ℕ → ℕ → ℤ
  top_of none byte = last_held s (byte * 8)
  top_of (some i) byte = pos (byte * 8 + i)

  last_held-top_bit :
      (byte k : ℕ)
      → byte < s.bm_size
      → k ≤ 8
      → last_held s (byte * 8 + k) ≡ top_of (top_bit (s.bm byte) k) byte
  unfolding top_bit
  last_held-top_bit byte zero l h = ap (last_held s) (omega arith)
  last_held-top_bit byte (suc k) l h =
      let step : byte * 8 + suc k ≡ suc (byte * 8 + k) = omega arith in
      let got = get_bit byte k (omega arith) l in
      elim (Bool-cases (bit (s.bm byte) k)) [
        | inl e ↦ rw (step, last_held, got, e, top_bit) refl
        | inr e ↦ rw (step, last_held, got, e, top_bit) (last_held-top_bit byte k l (omega arith))
      ]

  top_id-last_held : (n : ℕ) → n ≤ s.bm_size → top_id s n ≡ last_held s (n * 8)
  unfolding top_id
  top_id-last_held zero h = refl
  top_id-last_held (suc byte) h =
      let size : suc byte * 8 ≡ byte * 8 + 8 = omega arith in
      let ih = top_id-last_held byte (omega arith) in
      let all = last_held-top_bit byte 8 (omega arith) (omega arith) in
      elim (Bool-cases (s.bm byte == 0)) [
        | inl e ↦
            let zero_bits : top_bit (s.bm byte) 8 ≡ none =
              rw ((==_iff (s.bm byte) 0).0 e) (unfold top_bit bit in refl) in
            rw (e, top_id, size, all, zero_bits) ih
        | inr e ↦ elim (Option-cases (top_bit (s.bm byte) 8)) [
          | inl f ↦ rw (e, top_id, size, all, f) ih
          | inr (i, f) ↦ rw (e, top_id, size, all, f) refl
        ]
      ]

  last_held-beyond : (d : ℕ) → last_held s (s.bm_size * 8 + d) ≡ last_held s (s.bm_size * 8)
  last_held-beyond zero = ap (last_held s) (omega arith)
  last_held-beyond (suc d) =
      let e : s.bm_size * 8 + suc d ≡ suc (s.bm_size * 8 + d) = omega arith in
      rw (e, last_held, beyond_bitmap (s.bm_size * 8 + d) (omega arith)) (last_held-beyond d)

  -- On a valid store, forEachPopulatedRange stays in the mapped files and calls back with exactly
  -- the ids of the range that select finds, in ascending order and with their coordinates, also
  -- where the range exceeds the bitmap; and highestPopulatedId gives the highest id that the store
  -- holds, or -1 if it holds none.
  pub scans-held_from :
      (byte_start byte_end n : ℕ)
      → s.bm_size ≤ n
      → (for_each_populated_range s byte_start byte_end
          ≡ done (held_from s ((byte_end - byte_start) * 8) (byte_start * 8)))
        × (highest_populated_id s ≡ last_held s (n * 8))
  unfolding highest_populated_id
  scans-held_from byte_start byte_end n h =
      let d = n * 8 - s.bm_size * 8 in
      let size : s.bm_size * 8 + d ≡ n * 8 = omega arith in
      (
        range-held_from byte_start byte_end,
        top_id-last_held s.bm_size (omega arith) ∙ sym (last_held-beyond d) ∙ ap (last_held s) size,
      )
