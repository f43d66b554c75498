-- ===== src/Wkb/Encode/Local.antt =====
-- The encoders that src/DeltaApplier.cpp and src/RegionalDeltaApplier.cpp each keep a copy of, and
-- their agreement with those of src/GeoUtils.cpp.
use gpsxdb.Prelude.{
  ℕ, suc, ◌+◌, ◌*◌, ◌%◌, ◌^◌, ◌≡◌, refl, Bool, true, false, ◌&&◌, ◌||◌, ltb, leb, ◌==◌,
  if◌then◌else◌, List, [], ◌∷◌, ◌++◌, length, get_or, arith, Bool-cases, inl, inr, append-nil,
}
use gpsxdb.Prelude.Int.{ℤ}
use gpsxdb.Bytes.{Bytes, write_le32}
use gpsxdb.Wkb.Geometry.{Point}
use gpsxdb.Wkb.Hex.{Text, to_hex_local, from_hex_char, hex_to_bytes}
use gpsxdb.Wkb.Encode.{
  write_points, write_wkb_ring, write_wkb_rings, write_header, write_wkb_polygon, line_bytes,
  way_bytes, is_linear, linear_parts, merged,
}

unfoldable pub line_wkb_bytes : ℤ → Bool → List Point → Bytes
line_wkb_bytes srid closed ps =
    if closed && leb 4 (length ps)
    then write_header srid 3 (write_le32 1 ++ (write_le32 (length ps % 2 ^ 32) ++ write_points ps))
    else write_header srid 2 (write_le32 (length ps % 2 ^ 32) ++ write_points ps)

-- `buildLineWKB`: the empty text for fewer than two points.
unfoldable pub build_line_wkb : ℤ → List Point → Bool → Text
build_line_wkb srid ps closed =
    if ltb (length ps) 2 then [] else to_hex_local (line_wkb_bytes srid closed ps)

-- The lambda `byte`: byte `i` of the geometry, read off its hex text.
pub hex_byte : Text → ℕ → ℕ
hex_byte h i = from_hex_char (get_or h (i * 2) 0) * 16 + from_hex_char (get_or h (i * 2 + 1) 0)

-- The tests on one text in the loop of `mergeLinestrings`.
pub is_linear_hex : Text → Bool
is_linear_hex h =
    if ltb (length h) 10
    then false
    else (let gtype =
          hex_byte h 1 + hex_byte h 2 * 2 ^ 8 + hex_byte h 3 * 2 ^ 16 + hex_byte h 4 * 2 ^ 24 in
        gtype % 2 ^ 16 == 2 || gtype % 2 ^ 16 == 5)

pub line_parts : List Text → List Bytes
line_parts [] = []
line_parts (h ∷ hs) = if is_linear_hex h then hex_to_bytes h ∷ line_parts hs else line_parts hs

unfoldable pub merge_linestrings : ℤ → List Text → Text
merge_linestrings srid hs = to_hex_local (merged srid (line_parts hs))

-- At least `5` or `10` items, by the shape of the list.
five_or_more : (n : ℕ) → ltb (suc (suc (suc (suc (suc n))))) 5 ≡ false
five_or_more n = ground arith

ten_or_more : (n : ℕ) → ltb (suc (suc (suc (suc (suc (suc (suc (suc (suc (suc n)))))))))) 10 ≡ false
ten_or_more n = ground arith

not_empty : (n : ℕ) → ltb 0 (suc n) ≡ true
not_empty n = ground arith

is_linear-hex : (h : Text) → ltb 0 (length h) && is_linear (hex_to_bytes h) ≡ is_linear_hex h
unfolding is_linear is_linear_hex hex_byte hex_to_bytes
is_linear-hex (a ∷ b ∷ c ∷ d ∷ e ∷ f ∷ g ∷ h ∷ i ∷ j ∷ r) =
    rw (not_empty _, five_or_more (length (hex_to_bytes r)), ten_or_more (length r))
is_linear-hex _ = refl

pub line_parts-eq : (hs : List Text) → line_parts hs ≡ linear_parts hs
unfolding line_parts linear_parts
line_parts-eq [] = refl
line_parts-eq (h ∷ hs) = rw (is_linear-hex h, line_parts-eq hs)

-- `buildLineWKB` writes the bytes that `buildWayGeom` of src/GeoUtils.cpp writes.
pub line_wkb_bytes-way_bytes :
    (srid : ℤ) (closed : Bool) (ps : List Point)
    → line_wkb_bytes srid closed ps ≡ way_bytes srid (closed && leb 4 (length ps)) ps
unfolding line_wkb_bytes way_bytes write_wkb_polygon line_bytes write_wkb_ring write_wkb_rings
line_wkb_bytes-way_bytes srid closed ps = elim (Bool-cases (closed && leb 4 (length ps))) [
  | inl e ↦ rw (e, append-nil)
  | inr e ↦ rw e
]
