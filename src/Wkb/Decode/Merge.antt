-- ===== src/Wkb/Decode/Merge.antt =====
-- `mergeWayGeoms`: which ways become parts, and that the decoder reads the parts back.
use gpsxdb.Prelude.{
  ℕ, suc, ◌-◌, ◌%◌, ◌^◌, ◌<◌, ◌≤◌, ◌≡◌, refl, ◌∙◌, Bool, true, false, not, ◌&&◌, List, [], ◌∷◌,
  ◌++◌, map, arith, length, length-map, All, append-nil, ltb, leb, if◌then◌else◌, Bool-cases, inl,
  inr,
}
use gpsxdb.Prelude.Int.{ℤ}
use gpsxdb.Bytes.{Bytes, Double, IsByte, write_le32}
use gpsxdb.Bytes.Signed.{IsI32}
use gpsxdb.Wkb.Geometry.{
  Point, LineString, Decoded, Outcome, found, nullopt, ◌>>=◌, multi_line_string,
}
use gpsxdb.Wkb.Cursor.{Cursor, start, u8}
use gpsxdb.Wkb.Cursor.Laws.{At, start-At}
use gpsxdb.Wkb.Hex.{Text, to_hex, hex_to_bytes, hex_to_bytes-to_hex}
use gpsxdb.Wkb.Encode.{
  write_header, line_bytes, way_bytes, concat, multi_line_bytes, is_linear, linear_parts, merged,
  merge_way_geoms, is_ring, build_way_geom,
}
use gpsxdb.Wkb.Encode.Valid.{
  line_bytes-IsByte, way_bytes-IsByte, multi_line_bytes-IsByte, is_linear-line_bytes,
  is_linear-polygon,
}
use gpsxdb.Wkb.Decode.{repeat, read_header, read_body, decode_one, decode, as_line_string}
use gpsxdb.Wkb.Decode.Parts.{Reads, IsRing, At-assoc, Reads-bind, Reads-wrap, counted-Reads}
use gpsxdb.Wkb.Decode.RoundTrip.{
  with_srid, line-Reads, write_header-append, decode_one-Reads, decode-found,
}

repeat_lines-Reads :
    (srid : ℤ) (fuel : ℕ) (ls : List LineString) (c : Cursor) (rest : Bytes)
    → IsI32 srid
    → All IsRing ls
    → At c (concat (map (line_bytes srid) ls) ++ rest)
    → Reads (repeat (λ d. decode_one (suc fuel) d >>= as_line_string) (length ls) c) ls rest
unfolding repeat concat as_line_string
repeat_lines-Reads srid fuel [] c rest z h at = record { after = c; run = refl; at = at }
repeat_lines-Reads srid fuel (l ∷ ls) c rest z h at =
    let later = concat (map (line_bytes srid) ls) ++ rest in
    let part = line-Reads srid z fuel c later l h.0 (At-assoc c (line_bytes srid l) _ rest at) in
    Reads-bind _
      (Reads-bind as_line_string part (λ d at₁. record { after = d; run = refl; at = at₁ }))
      (λ c₁ at₁. Reads-wrap (λ xs. l ∷ xs) (repeat_lines-Reads srid fuel ls c₁ rest z h.1 at₁))

pub multi_line-Reads :
    (srid : ℤ) (fuel : ℕ) (ls : List LineString) (c : Cursor) (rest : Bytes)
    → IsI32 srid
    → length ls < 2 ^ 32
    → All IsRing ls
    → At c (multi_line_bytes srid (map (line_bytes srid) ls) ++ rest)
    → Reads (decode_one (suc (suc fuel)) c) (with_srid srid (multi_line_string ls)) rest
unfolding multi_line_bytes read_body
multi_line-Reads srid fuel ls c rest z n h at =
    let parts = concat (map (line_bytes srid) ls) in
    decode_one-Reads (suc fuel) srid 5 c (multi_line_string ls) _ rest z (omega arith)
      (rw write_header-append at at)
      (λ d at₁. Reads-wrap multi_line_string (
        counted-Reads _ (length ls) ls d (parts ++ rest) rest n
          (At-assoc d (write_le32 (length ls % 2 ^ 32)) parts rest (rw length-map at at₁))
          (λ e at₂. repeat_lines-Reads srid fuel ls e rest z h at₂)))

-- The outcome that the lines `ls` call for: no geometry if there is none.
abbrev pub lines_shape : ℤ → List LineString → Outcome Decoded
lines_shape srid [] = nullopt
lines_shape srid (l ∷ ls) = found (with_srid srid (multi_line_string (l ∷ ls)))

-- The ways that are lines: at least two points, and no ring.
abbrev pub open_lines : (Double → Double → Bool) → List (List Point) → List LineString
open_lines eq [] = []
open_lines eq (ps ∷ ws) =
    if leb 2 (length ps) && not (is_ring eq ps) then ps ∷ open_lines eq ws else open_lines eq ws

-- The hex texts of ways, as the import stores them.
abbrev pub way_hexes : (Double → Double → Bool) → ℤ → List (List Point) → List Text
way_hexes eq srid ws = map (λ ps. (build_way_geom eq srid ps false).0) ws

not_empty : (n : ℕ) → ltb 0 (suc n) ≡ true
not_empty n = ground arith

-- The loop's test on the hex text of bytes is the test on the bytes.
pub linear_hex :
    (bs : Bytes)
    → All IsByte bs
    → ltb 0 (length (to_hex bs)) && is_linear (hex_to_bytes (to_hex bs)) ≡ is_linear bs
linear_hex [] h = unfold is_linear to_hex hex_to_bytes in refl
linear_hex (b ∷ bs) h =
    rw (hex_to_bytes-to_hex (b ∷ bs) h) (unfold to_hex in rw (not_empty (suc (length (to_hex bs)))))

module _ (eq : Double → Double → Bool) (srid : ℤ) where
  is_linear-way_bytes :
      (closed : Bool) (ps : List Point) → is_linear (way_bytes srid closed ps) ≡ not closed
  unfolding way_bytes
  is_linear-way_bytes true ps = is_linear-polygon srid ps []
  is_linear-way_bytes false ps = is_linear-line_bytes srid ps

  keep_line :
      (closed : Bool) (ps : List Point) (r : List Bytes)
      → (if not closed then way_bytes srid closed ps ∷ r else r)
        ≡ (if not closed then line_bytes srid ps ∷ r else r)
  unfolding way_bytes
  keep_line true ps r = refl
  keep_line false ps r = refl

  keep_map :
      (b : Bool) (ps : List Point) (ls : List LineString) (r : List Bytes)
      → r ≡ map (line_bytes srid) ls
      → (if b then line_bytes srid ps ∷ r else r)
        ≡ map (line_bytes srid) (if b then ps ∷ ls else ls)
  keep_map true ps ls r e = rw e
  keep_map false ps ls r e = e

  -- One round of the loop, on a way's hex text.
  linear_parts-cons :
      (ps : List Point) (hs : List Text)
      → linear_parts ((build_way_geom eq srid ps false).0 ∷ hs) ≡ (
          if leb 2 (length ps) && not (is_ring eq ps)
          then line_bytes srid ps ∷ linear_parts hs
          else linear_parts hs)
  unfolding linear_parts build_way_geom
  linear_parts-cons ps hs =
      let closed = is_ring eq ps in
      let valid = way_bytes-IsByte srid closed ps in
      elim (Bool-cases (ltb (length ps) 2)) [
        | inl short ↦ let e : leb 2 (length ps) ≡ false = ground arith in rw (short, e)
        | inr long ↦
            let e : leb 2 (length ps) ≡ true = ground arith in
            rw
              (
                long,
                e,
                linear_hex (way_bytes srid closed ps) valid,
                is_linear-way_bytes closed ps,
                hex_to_bytes-to_hex (way_bytes srid closed ps) valid,
              )
              (keep_line closed ps (linear_parts hs))
      ]

  linear_parts-way_hexes :
      (ws : List (List Point))
      → linear_parts (way_hexes eq srid ws) ≡ map (line_bytes srid) (open_lines eq ws)
  linear_parts-way_hexes [] = unfold linear_parts in refl
  linear_parts-way_hexes (ps ∷ ws) =
      linear_parts-cons ps (way_hexes eq srid ws)
      ∙ keep_map (leb 2 (length ps) && not (is_ring eq ps)) ps (open_lines eq ws)
          (linear_parts (way_hexes eq srid ws)) (linear_parts-way_hexes ws)

  open_lines-length : (ws : List (List Point)) → length (open_lines eq ws) ≤ length ws
  open_lines-length [] = omega arith
  open_lines-length (ps ∷ ws) = ground (arith, open_lines-length ws)

  open_lines-IsRing : (ws : List (List Point)) → All IsRing ws → All IsRing (open_lines eq ws)
  open_lines-IsRing [] h = tt
  open_lines-IsRing (ps ∷ ws) h = elim (Bool-cases (leb 2 (length ps) && not (is_ring eq ps))) [
    | inl e ↦ rw e (h.0, open_lines-IsRing ws h.1)
    | inr e ↦ rw e (open_lines-IsRing ws h.1)
  ]

pub lines-IsByte : (srid : ℤ) (ls : List LineString) → All (All IsByte) (map (line_bytes srid) ls)
lines-IsByte srid [] = tt
lines-IsByte srid (l ∷ ls) = (line_bytes-IsByte srid l, lines-IsByte srid ls)

pub decode-nil : decode [] ≡ nullopt
unfolding decode decode_one read_header u8 start
decode-nil = refl

pub length-multi_line_bytes :
    (srid : ℤ) (parts : List Bytes)
    → length (multi_line_bytes srid parts) ≡ suc (length (multi_line_bytes srid parts) - 1)
unfolding multi_line_bytes write_header
length-multi_line_bytes srid parts = omega arith

decode-merged :
    (srid : ℤ) (ls : List LineString)
    → IsI32 srid
    → length ls < 2 ^ 32
    → All IsRing ls
    → decode (hex_to_bytes (to_hex (merged srid (map (line_bytes srid) ls)))) ≡ lines_shape srid ls
unfolding merged
decode-merged srid [] z n h = unfold to_hex hex_to_bytes in decode-nil
decode-merged srid (l ∷ ls) z n h =
    let bs = multi_line_bytes srid (map (line_bytes srid) (l ∷ ls)) in
    rw (hex_to_bytes-to_hex bs (multi_line_bytes-IsByte srid _ (lines-IsByte srid (l ∷ ls)))) (
      decode-found bs _ [] (
        rw (length-multi_line_bytes srid (map (line_bytes srid) (l ∷ ls)))
          (multi_line-Reads srid _ (l ∷ ls) (start bs) [] z n h (rw append-nil (start-At bs)))))

-- Merging the geometries of any ways and decoding the result gives the ways that are lines, in
-- their order, as one MultiLineString: rings and ways of fewer than two points are left out. Where
-- no way is a line there is no geometry to decode.
pub decode-merge_way_geoms :
    (eq : Double → Double → Bool) (srid : ℤ) (ws : List (List Point))
    → IsI32 srid
    → length ws < 2 ^ 32
    → All IsRing ws
    → decode (hex_to_bytes (merge_way_geoms srid (way_hexes eq srid ws)))
      ≡ lines_shape srid (open_lines eq ws)
unfolding merge_way_geoms
decode-merge_way_geoms eq srid ws z n h = rw (linear_parts-way_hexes eq srid ws) (
    decode-merged srid (open_lines eq ws) z (omega (arith, open_lines-length eq srid ws))
      (open_lines-IsRing eq srid ws h))
