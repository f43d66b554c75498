-- ===== src/Wkb/Hex.antt =====
-- Hex text: `toHex` of src/GeoUtils.cpp (upper case), `toHexLocal` of the delta appliers (lower
-- case), and the readers that take both. A text is the list of its character codes.
use gpsxdb.Prelude.{
  ℕ, ◌+◌, ◌-◌, ◌*◌, ◌/◌, ◌%◌, ◌<◌, ◌≡◌, refl, ap₂, ◌&&◌, leb, ltb, if◌then◌else◌, List, [], ◌∷◌,
  arith, All,
}
use gpsxdb.Bytes.{Bytes, IsByte}

abbrev pub Text : Type 0
Text = List ℕ

-- `h[d]` in "0123456789ABCDEF".
upper_digit : ℕ → ℕ
upper_digit d = if ltb d 10 then b'0' + d else b'A' + (d - 10)

-- A digit as `std::hex` prints it.
lower_digit : ℕ → ℕ
lower_digit d = if ltb d 10 then b'0' + d else b'a' + (d - 10)

unfoldable pub to_hex : Bytes → Text
unfolding upper_digit
to_hex [] = []
to_hex (b ∷ bs) = upper_digit (b / 16) ∷ upper_digit (b % 16) ∷ to_hex bs

unfoldable pub to_hex_local : Bytes → Text
unfolding lower_digit
to_hex_local [] = []
to_hex_local (b ∷ bs) = lower_digit (b / 16) ∷ lower_digit (b % 16) ∷ to_hex_local bs

pub from_hex_char : ℕ → ℕ
from_hex_char c =
    if leb b'0' c && leb c b'9'
    then c - b'0'
    else if leb b'a' c && leb c b'f'
    then c - b'a' + 10
    else if leb b'A' c && leb c b'F'
    then c - b'A' + 10
    else 0

-- Two characters make a byte; an odd last one is left out.
unfoldable pub hex_to_bytes : Text → Bytes
hex_to_bytes [] = []
hex_to_bytes (h ∷ []) = []
hex_to_bytes (h ∷ l ∷ cs) = (from_hex_char h * 16 + from_hex_char l) ∷ hex_to_bytes cs

from_hex_char-upper_digit : (d : ℕ) → d < 16 → from_hex_char (upper_digit d) ≡ d
unfolding from_hex_char upper_digit
from_hex_char-upper_digit d h = ground arith

from_hex_char-lower_digit : (d : ℕ) → d < 16 → from_hex_char (lower_digit d) ≡ d
unfolding from_hex_char lower_digit
from_hex_char-lower_digit d h = ground arith

hex_pair :
    (b : ℕ)
    → b < 256
    → from_hex_char (upper_digit (b / 16)) * 16 + from_hex_char (upper_digit (b % 16)) ≡ b
hex_pair b h =
    rw
      (
        from_hex_char-upper_digit (b / 16) (omega arith),
        from_hex_char-upper_digit (b % 16) (omega arith),
      )
      (omega arith)

hex_pair_local :
    (b : ℕ)
    → b < 256
    → from_hex_char (lower_digit (b / 16)) * 16 + from_hex_char (lower_digit (b % 16)) ≡ b
hex_pair_local b h =
    rw
      (
        from_hex_char-lower_digit (b / 16) (omega arith),
        from_hex_char-lower_digit (b % 16) (omega arith),
      )
      (omega arith)

-- Bytes survive the way to upper-case hex and back.
pub hex_to_bytes-to_hex : (bs : Bytes) → All IsByte bs → hex_to_bytes (to_hex bs) ≡ bs
unfolding hex_to_bytes to_hex
hex_to_bytes-to_hex [] h = refl
hex_to_bytes-to_hex (b ∷ bs) h = ap₂ ◌∷◌ (hex_pair b h.0) (hex_to_bytes-to_hex bs h.1)

-- Bytes survive the way to lower-case hex and back.
pub hex_to_bytes-to_hex_local : (bs : Bytes) → All IsByte bs → hex_to_bytes (to_hex_local bs) ≡ bs
unfolding hex_to_bytes to_hex_local
hex_to_bytes-to_hex_local [] h = refl
hex_to_bytes-to_hex_local (b ∷ bs) h =
    ap₂ ◌∷◌ (hex_pair_local b h.0) (hex_to_bytes-to_hex_local bs h.1)

from_hex_char-lt : (c : ℕ) → from_hex_char c < 16
unfolding from_hex_char
from_hex_char-lt c = ground arith

-- Whatever the text, bytes come out.
pub hex_to_bytes-IsByte : (h : Text) → All IsByte (hex_to_bytes h)
unfolding hex_to_bytes
hex_to_bytes-IsByte [] = tt
hex_to_bytes-IsByte (h ∷ []) = tt
hex_to_bytes-IsByte (h ∷ l ∷ cs) =
    (omega (arith, from_hex_char-lt h, from_hex_char-lt l), hex_to_bytes-IsByte cs)
