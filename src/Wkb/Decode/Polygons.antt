-- ===== src/Wkb/Decode/Polygons.antt =====
-- A MultiPolygon around polygons that `writeWkbPolygon` writes, read by the decoder.
use gpsxdb.Prelude.{
  ℕ, suc, ◌+◌, ◌-◌, ◌%◌, ◌^◌, ◌<◌, ◌≡◌, refl, List, [], ◌∷◌, ◌++◌, map, length, append-nil, All,
  All-append, arith,
}
use gpsxdb.Prelude.Int.{ℤ}
use gpsxdb.Bytes.{Bytes, IsByte, write_le32, write_le32-IsByte}
use gpsxdb.Bytes.Signed.{IsI32}
use gpsxdb.Wkb.Geometry.{Polygon, found, ◌>>=◌, multi_polygon}
use gpsxdb.Wkb.Cursor.{Cursor, start}
use gpsxdb.Wkb.Cursor.Laws.{At, start-At}
use gpsxdb.Wkb.Encode.{write_header, write_wkb_polygon, concat}
use gpsxdb.Wkb.Encode.Valid.{write_header-IsByte, write_wkb_polygon-IsByte, concat-IsByte}
use gpsxdb.Wkb.Decode.{repeat, read_body, decode_one, decode, as_polygon}
use gpsxdb.Wkb.Decode.Parts.{Reads, IsRing, At-assoc, Reads-bind, Reads-wrap, counted-Reads}
use gpsxdb.Wkb.Decode.RoundTrip.{with_srid, polygon-Reads, decode_one-Reads, decode-found}

abbrev pub IsPolygon : Polygon → Type 0
IsPolygon p = (1 + length p.inners < 2 ^ 32) × IsRing p.outer × All IsRing p.inners

module _ (srid : ℤ) where
  abbrev pub polygon_bytes : Polygon → Bytes
  polygon_bytes p = write_wkb_polygon srid p.outer p.inners

  abbrev pub multi_polygon_bytes : List Polygon → Bytes
  multi_polygon_bytes ps =
      write_header srid 6 (write_le32 (length ps % 2 ^ 32) ++ concat (map polygon_bytes ps))

  parts-IsByte : (ps : List Polygon) → All (All IsByte) (map polygon_bytes ps)
  parts-IsByte [] = tt
  parts-IsByte (p ∷ ps) = (write_wkb_polygon-IsByte srid p.outer p.inners, parts-IsByte ps)

  pub multi_polygon_bytes-IsByte : (ps : List Polygon) → All IsByte (multi_polygon_bytes ps)
  multi_polygon_bytes-IsByte ps = write_header-IsByte srid 6 _ (
      All-append IsByte (write_le32 (length ps % 2 ^ 32)) _ (write_le32-IsByte _)
        (concat-IsByte _ (parts-IsByte ps)))

  module _ (z : IsI32 srid) where
    repeat_polygons-Reads :
        (fuel : ℕ) (ps : List Polygon) (c : Cursor) (rest : Bytes)
        → All IsPolygon ps
        → At c (concat (map polygon_bytes ps) ++ rest)
        → Reads (repeat (λ d. decode_one (suc fuel) d >>= as_polygon) (length ps) c) ps rest
    unfolding repeat concat as_polygon
    repeat_polygons-Reads fuel [] c rest h at = record { after = c; run = refl; at = at }
    repeat_polygons-Reads fuel (p ∷ ps) c rest ((n, outer, inners), h) at =
        let later = concat (map polygon_bytes ps) ++ rest in
        let part =
          polygon-Reads srid z fuel c later p.outer p.inners n outer inners
            (At-assoc c (polygon_bytes p) _ rest at) in
        Reads-bind _
          (Reads-bind as_polygon part (λ d at₁. record { after = d; run = refl; at = at₁ }))
          (λ c₁ at₁. Reads-wrap (λ qs. p ∷ qs) (repeat_polygons-Reads fuel ps c₁ rest h at₁))

    multi_polygon-Reads :
        (fuel : ℕ) (ps : List Polygon) (c : Cursor)
        → length ps < 2 ^ 32
        → All IsPolygon ps
        → At c (multi_polygon_bytes ps)
        → Reads (decode_one (suc (suc fuel)) c) (with_srid srid (multi_polygon ps)) []
    unfolding read_body
    multi_polygon-Reads fuel ps c m h at =
        let parts = concat (map polygon_bytes ps) in
        decode_one-Reads (suc fuel) srid 6 c (multi_polygon ps) _ [] z (omega arith) at (λ d at₁.
          Reads-wrap multi_polygon (
            counted-Reads _ (length ps) ps d parts [] m at₁
              (λ e at₂. repeat_polygons-Reads fuel ps e [] h (rw append-nil at₂))))

    long :
        (ps : List Polygon)
        → length (multi_polygon_bytes ps) ≡ suc (length (multi_polygon_bytes ps) - 1)
    unfolding write_header
    long ps = omega arith

    pub decode-multi_polygon_bytes :
        (ps : List Polygon)
        → length ps < 2 ^ 32
        → All IsPolygon ps
        → decode (multi_polygon_bytes ps) ≡ found (with_srid srid (multi_polygon ps))
    decode-multi_polygon_bytes ps m h =
        let bs = multi_polygon_bytes ps in
        decode-found bs _ [] (rw (long ps) (multi_polygon-Reads _ ps (start bs) m h (start-At bs)))
