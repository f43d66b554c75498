-- ===== src/Wkb/Cursor.antt =====
-- `Cursor` of src/WkbDecode.cpp: a bounds-checked little-endian reader. A read out of bounds sets
-- `failed` and returns 0; later reads do not look at `failed`.
pub mod Laws
pub mod Moves
use gpsxdb.Prelude.{
  ℕ, ◌+◌, ◌-◌, ◌*◌, ◌^◌, Bool, true, false, not, ltb, leb, if◌then◌else◌, length, get_or,
}
use gpsxdb.Bytes.{Bytes, Double, read_le}

-- `bytes` stands for `data_` and `len_`.
pub record Cursor : Type 0 where
  pub bytes : Bytes
  pub pos : ℕ
  pub failed : Bool

unfoldable pub start : Bytes → Cursor
start bs = record { bytes = bs; pos = 0; failed = false }

pub ok : Cursor → Bool
ok c = not c.failed

unfoldable pub u8 : Cursor → ℕ × Cursor
u8 c =
    if ltb (length c.bytes) (c.pos + 1)
    then (0, record c { failed = true })
    else (get_or c.bytes c.pos 0, record c { pos = c.pos + 1 })

pub u32 : Cursor → ℕ × Cursor
u32 c = if ltb (length c.bytes) (c.pos + 4) then (0, record c { failed = true }) else (
  get_or c.bytes c.pos 0
      + get_or c.bytes (c.pos + 1) 0 * 2 ^ 8
      + get_or c.bytes (c.pos + 2) 0 * 2 ^ 16
      + get_or c.bytes (c.pos + 3) 0 * 2 ^ 24,
  record c { pos = c.pos + 4 },
)

pub f64 : Cursor → Double × Cursor
f64 c =
    if ltb (length c.bytes) (c.pos + 8)
    then (0, record c { failed = true })
    else (read_le 8 c.bytes c.pos, record c { pos = c.pos + 8 })

unfoldable pub remaining : Cursor → ℕ
remaining c = if leb c.pos (length c.bytes) then length c.bytes - c.pos else 0

pub advance : ℕ → Cursor → Cursor
advance n c =
    if ltb (length c.bytes) (c.pos + n)
    then record c { failed = true }
    else record c { pos = c.pos + n }
