-- ===== src/Wkb/Decode/Nested.antt =====
-- `mergeWayGeoms` also takes MultiLineStrings for parts, which the decoder does not read.
use gpsxdb.Prelude.{
  ℕ, suc, ◌-◌, ◌%◌, ◌^◌, ◌<◌, ◌≤◌, ◌≡◌, sym, subst, List, [], ◌∷◌, ◌++◌, map, arith, length, All,
}
use gpsxdb.Prelude.Int.{ℤ}
use gpsxdb.Bytes.{Bytes, write_le32}
use gpsxdb.Bytes.Signed.{IsI32}
use gpsxdb.Wkb.Geometry.{LineString, nullopt, ◌>>=◌}
use gpsxdb.Wkb.Cursor.{Cursor, start, u32}
use gpsxdb.Wkb.Cursor.Laws.{At, start-At, u32-At}
use gpsxdb.Wkb.Hex.{Text, to_hex, hex_to_bytes, hex_to_bytes-to_hex}
use gpsxdb.Wkb.Encode.{
  write_header, line_bytes, concat, multi_line_bytes, linear_parts, merged, merge_way_geoms,
}
use gpsxdb.Wkb.Encode.Valid.{multi_line_bytes-IsByte, linear_parts-IsByte, is_linear-multi_line}
use gpsxdb.Wkb.Decode.{repeat, counted, read_body, decode_one, decode, as_line_string}
use gpsxdb.Wkb.Decode.Parts.{IsRing, read_header-Reads}
use gpsxdb.Wkb.Decode.Merge.{multi_line-Reads, lines-IsByte, linear_hex}

-- A MultiLineString of the lines `ls`, as hex text.
abbrev pub nested_hex : ℤ → List LineString → Text
nested_hex srid ls = to_hex (multi_line_bytes srid (map (line_bytes srid) ls))

long :
    (srid : ℤ) (parts : List Bytes)
    → length (multi_line_bytes srid parts) ≡ suc (suc (length (multi_line_bytes srid parts) - 2))
unfolding multi_line_bytes write_header write_le32
long srid parts = omega arith

linear_parts-length : (hs : List Text) → length (linear_parts hs) ≤ length hs
unfolding linear_parts
linear_parts-length [] = omega arith
linear_parts-length (h ∷ hs) = ground (arith, linear_parts-length hs)

module _ (srid : ℤ) (z : IsI32 srid) (ls : List LineString) (n : length ls < 2 ^ 32)
    (h : All IsRing ls) where
  nested : Bytes
  nested = multi_line_bytes srid (map (line_bytes srid) ls)

  -- The first part is a MultiLineString, so the loop returns at once.
  counted-nested :
      (fuel k : ℕ) (c : Cursor) (rest : Bytes)
      → suc k < 2 ^ 32
      → At c (write_le32 (suc k % 2 ^ 32) ++ (nested ++ rest))
      → counted (λ d. decode_one (suc (suc fuel)) d >>= as_line_string) c ≡ nullopt
  unfolding counted repeat nested as_line_string
  counted-nested fuel k c rest small at =
      let e : suc k % 2 ^ 32 ≡ suc k = omega arith in
      let (ek, at₁) = u32-At c (suc k) _ small (rw e at at) in
      let part = multi_line-Reads srid fuel ls (u32 c).1 rest z n h at₁ in
      rw (at₁.fine, ek, part.run)

  body_nested :
      (fuel k : ℕ) (c : Cursor) (rest : Bytes)
      → suc k < 2 ^ 32
      → At c (write_le32 (suc k % 2 ^ 32) ++ (nested ++ rest))
      → read_body (decode_one (suc (suc fuel))) 5 c ≡ nullopt
  unfolding read_body
  body_nested fuel k c rest small at = rw (counted-nested fuel k c rest small at)

  decode_one-nested :
      (fuel : ℕ) (c : Cursor) (parts : List Bytes)
      → suc (length parts) < 2 ^ 32
      → At c (multi_line_bytes srid (nested ∷ parts))
      → decode_one (suc (suc (suc fuel))) c ≡ nullopt
  unfolding decode_one multi_line_bytes
  decode_one-nested fuel c parts small at =
      let head = read_header-Reads srid 5 c _ z (omega arith) at in
      rw (
        head.run,
        body_nested fuel (length parts) head.after (concat parts) small (unfold concat in head.at),
      )

  decode-nested :
      (parts : List Bytes)
      → suc (length parts) < 2 ^ 32
      → decode (multi_line_bytes srid (nested ∷ parts)) ≡ nullopt
  unfolding decode
  decode-nested parts small =
      let bs = multi_line_bytes srid (nested ∷ parts) in
      let run : decode_one (suc (length bs)) (start bs) ≡ nullopt =
        subst (λ m. decode_one (suc m) (start bs) ≡ nullopt) (sym (long srid (nested ∷ parts)))
          (decode_one-nested (length bs - 2) (start bs) parts small (start-At bs)) in
      rw run

-- A MultiLineString among the texts to merge, here at their head, leaves a geometry that the
-- decoder refuses, whatever texts follow it.
pub decode-merge_nested :
    (srid : ℤ) (ls : List LineString) (hs : List Text)
    → IsI32 srid
    → length ls < 2 ^ 32
    → All IsRing ls
    → suc (length hs) < 2 ^ 32
    → decode (hex_to_bytes (merge_way_geoms srid (nested_hex srid ls ∷ hs))) ≡ nullopt
unfolding merge_way_geoms linear_parts merged nested
decode-merge_nested srid ls hs z n h small =
    let bs = nested srid z ls n h in
    let valid = multi_line_bytes-IsByte srid _ (lines-IsByte srid ls) in
    rw (linear_hex (multi_line_bytes srid (map (line_bytes srid) ls)) valid, is_linear-multi_line)
      (rw (hex_to_bytes-to_hex bs valid) (
        rw
          (hex_to_bytes-to_hex (multi_line_bytes srid (bs ∷ linear_parts hs))
            (multi_line_bytes-IsByte srid (bs ∷ linear_parts hs) (valid, linear_parts-IsByte hs)))
          (decode-nested srid z ls n h (linear_parts hs) (omega (arith, linear_parts-length hs)))))
