-- ===== src/NodeStore/Scan.antt =====
-- The scans of the bitmap, `forEachPopulatedRange` and `highestPopulatedId` of src/OSMMMap.cpp. The
-- calls of the callback are the list of their arguments.
pub mod Populated
use gpsxdb.Prelude.{
  ℕ, zero, suc, ◌+◌, ◌-◌, ◌*◌, min, Bool, ltb, ◌==◌, if◌then◌else◌, List, [], ◌∷◌, ◌++◌, Option,
  none, some,
}
use gpsxdb.Prelude.Int.{ℤ, pos, negsuc}
use gpsxdb.Bytes.Bits.{bit}
use gpsxdb.NodeStore.{Coord, Store, Access, done, segv, offset_of, end_of, read_record}

infixr 35 ◌>>=◌
abbrev pub ◌>>=◌ {ℓ κ} : {A : Type ℓ} {B : Type κ} → Access A → (A → Access B) → Access B
done a >>= f = f a
segv >>= f = segv

-- The `k` bits of a byte from `i` on.
pub scan_bits : Store → ℕ → ℕ → ℕ → Access (List (ℕ × Coord))
scan_bits s byte zero i = done []
scan_bits s byte (suc k) i =
    let rest = scan_bits s byte k (suc i) in
    let id = byte * 8 + i in
    if bit (s.bm byte) i
    then (if ltb s.size (end_of (pos id))
        then rest
        else (read_record s (offset_of (pos id)) >>= λ p. rest >>= λ items. done ((id, p) ∷ items)))
    else rest

-- `k` bytes from `byte` on.
pub scan_bytes : Store → ℕ → ℕ → Access (List (ℕ × Coord))
scan_bytes s zero byte = done []
scan_bytes s (suc k) byte =
    let rest = scan_bytes s k (suc byte) in
    if s.bm byte == 0
    then rest
    else (scan_bits s byte 8 0 >>= λ items. rest >>= λ more. done (items ++ more))

pub for_each_populated_range : Store → ℕ → ℕ → Access (List (ℕ × Coord))
for_each_populated_range s byte_start byte_end =
    scan_bytes s (min byte_end s.bm_size - byte_start) byte_start

pub for_each_populated : Store → Access (List (ℕ × Coord))
for_each_populated s = for_each_populated_range s 0 s.bm_size

-- The highest of the `k` lowest bits that is set.
pub top_bit : ℕ → ℕ → Option ℕ
top_bit b zero = none
top_bit b (suc k) = if bit b k then some k else top_bit b k

pub top_id : Store → ℕ → ℤ
top_id s zero = negsuc 0
top_id s (suc byte) =
    let rest = top_id s byte in
    if s.bm byte == 0
    then rest
    else elim (top_bit (s.bm byte) 8) [ none ↦ rest | some i ↦ pos (byte * 8 + i) ]

pub highest_populated_id : Store → ℤ
highest_populated_id s = top_id s s.bm_size
