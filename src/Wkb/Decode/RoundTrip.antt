-- ===== src/Wkb/Decode/RoundTrip.antt =====
-- What the encoders write, the decoder reads back.
use gpsxdb.Prelude.{
  ℕ, suc, ◌+◌, ◌%◌, ◌^◌, ◌<◌, ◌≤◌, ◌≡◌, refl, Bool, true, false, List, [], ◌∷◌, ◌++◌, arith, length,
  All, append_assoc, append-nil, ltb, if◌then◌else◌,
}
use gpsxdb.Prelude.Int.{ℤ}
use gpsxdb.Bytes.{Bytes, Double, write_le32, write_le}
use gpsxdb.Bytes.Signed.{IsI32}
use gpsxdb.Wkb.Geometry.{Point, Geom, Decoded, found, point, line_string, polygon}
use gpsxdb.Wkb.Cursor.{Cursor, start}
use gpsxdb.Wkb.Cursor.Laws.{At, start-At}
use gpsxdb.Wkb.Hex.{hex_to_bytes, hex_to_bytes-to_hex}
use gpsxdb.Wkb.Encode.{
  write_wkb_ring, write_wkb_rings, write_header, write_wkb_polygon, line_bytes, point_bytes,
  way_bytes, point_wkb, is_ring, build_way_geom,
}
use gpsxdb.Wkb.Encode.Valid.{point_bytes-IsByte, way_bytes-IsByte}
use gpsxdb.Wkb.Decode.{read_body, decode_one, decode, polygon_of_rings, counted, read_point}
use gpsxdb.Wkb.Decode.Parts.{
  Reads, IsPoint, IsRing, At-assoc, Reads-bind, Reads-wrap, read_point-Reads, ring-Reads,
  repeat_rings-Reads, counted-Reads, read_header-Reads,
}

abbrev pub with_srid : ℤ → Geom → Decoded
with_srid srid g = record { geom = g; srid = srid }

-- A header, and a body that its reader takes.
pub decode_one-Reads :
    (fuel : ℕ) (srid : ℤ) (type : ℕ) (c : Cursor) (g : Geom) (body rest : Bytes)
    → IsI32 srid
    → type < 2 ^ 16
    → At c (write_header srid type body)
    → ((d : Cursor) → At d body → Reads (read_body (decode_one fuel) type d) g rest)
    → Reads (decode_one (suc fuel) c) (with_srid srid g) rest
unfolding decode_one
decode_one-Reads fuel srid type c g body rest z t at k =
    Reads-bind _ (read_header-Reads srid type c body z t at)
      (λ d at₁. Reads-wrap (with_srid srid) (k d at₁))

pub write_header-append :
    (srid : ℤ) (type : ℕ) (body rest : Bytes)
    → write_header srid type body ++ rest ≡ write_header srid type (body ++ rest)
unfolding write_header
write_header-append srid type body rest = simp append_assoc

module _ (srid : ℤ) (z : IsI32 srid) (fuel : ℕ) (c : Cursor) (rest : Bytes) where
  part :
      (type : ℕ) (body : Bytes) (g : Geom)
      → type < 2 ^ 16
      → At c (write_header srid type body ++ rest)
      → ((d : Cursor) → At d (body ++ rest) → Reads (read_body (decode_one fuel) type d) g rest)
      → Reads (decode_one (suc fuel) c) (with_srid srid g) rest
  part type body g t at k =
      decode_one-Reads fuel srid type c g (body ++ rest) rest z t (rw write_header-append at at) k

  point-Reads :
      (p : Point)
      → IsPoint p
      → At c (point_bytes srid p ++ rest)
      → Reads (decode_one (suc fuel) c) (with_srid srid (point p)) rest
  unfolding point_bytes read_body
  point-Reads p h at =
      part 1 (write_le 8 p.0 ++ write_le 8 p.1) (point p) (omega arith) at (λ d at₁.
        Reads-wrap point
          (read_point-Reads d p rest h (At-assoc d (write_le 8 p.0) (write_le 8 p.1) rest at₁)))

  pub line-Reads :
      (ps : List Point)
      → IsRing ps
      → At c (line_bytes srid ps ++ rest)
      → Reads (decode_one (suc fuel) c) (with_srid srid (line_string ps)) rest
  unfolding line_bytes read_body
  line-Reads ps h at =
      part 2 (write_wkb_ring ps) (line_string ps) (omega arith) at
        (λ d at₁. Reads-wrap line_string (ring-Reads ps d rest h at₁))

  pub polygon-Reads :
      (outer : List Point) (inners : List (List Point))
      → 1 + length inners < 2 ^ 32
      → IsRing outer
      → All IsRing inners
      → At c (write_wkb_polygon srid outer inners ++ rest)
      → Reads
          (decode_one (suc fuel) c)
          (with_srid srid (polygon (record { outer = outer; inners = inners })))
          rest
  unfolding write_wkb_polygon read_body polygon_of_rings write_wkb_rings
  polygon-Reads outer inners n h k at =
      part 3 _ (polygon (record { outer = outer; inners = inners })) (omega arith) at (λ d at₁.
        Reads-wrap (λ rs. polygon (polygon_of_rings rs))
          (counted-Reads (counted read_point) (1 + length inners) (outer ∷ inners) d
            (write_wkb_rings (outer ∷ inners) ++ rest) rest n
            (At-assoc d (write_le32 ((1 + length inners) % 2 ^ 32))
              (write_wkb_rings (outer ∷ inners)) rest at₁)
            (λ e at₂.
              let one : 1 + length inners ≡ suc (length inners) = omega arith in
              rw one (repeat_rings-Reads (outer ∷ inners) e rest (h, k) at₂))))

-- A buffer as the start of itself and what follows.
pub decode-found :
    (bs : Bytes) (d : Decoded) (rest : Bytes)
    → Reads (decode_one (suc (length bs)) (start bs)) d rest
    → decode bs ≡ found d
unfolding decode
decode-found bs d rest h = rw h.run

-- A point that `pointWKB` writes is decoded to itself, with the process's SRID.
pub decode-point_wkb :
    (srid : ℤ) (x y : Double)
    → IsI32 srid
    → x < 2 ^ 64
    → y < 2 ^ 64
    → decode (hex_to_bytes (point_wkb srid x y)) ≡ found (with_srid srid (point (x, y)))
unfolding point_wkb
decode-point_wkb srid x y z hx hy =
    let bs = point_bytes srid (x, y) in
    rw (hex_to_bytes-to_hex bs (point_bytes-IsByte srid (x, y))) (
      decode-found bs (with_srid srid (point (x, y))) [] (
        point-Reads srid z (length bs) (start bs) [] (x, y) (hx, hy) (rw append-nil (start-At bs))))

-- A polygon that `writeWkbPolygon` writes, with any number of holes, is decoded to its rings in
-- their order, whatever bytes follow it.
pub decode-write_wkb_polygon :
    (srid : ℤ) (outer : List Point) (inners : List (List Point)) (rest : Bytes)
    → IsI32 srid
    → 1 + length inners < 2 ^ 32
    → IsRing outer
    → All IsRing inners
    → decode (write_wkb_polygon srid outer inners ++ rest)
      ≡ found (with_srid srid (polygon (record { outer = outer; inners = inners })))
decode-write_wkb_polygon srid outer inners rest z n h k =
    let bs = write_wkb_polygon srid outer inners ++ rest in
    decode-found bs _ rest
      (polygon-Reads srid z (length bs) (start bs) rest outer inners n h k (start-At bs))

-- What a way becomes: a polygon without holes if it is closed, a line otherwise.
abbrev pub way_shape : Bool → List Point → Geom
way_shape closed ps =
    if closed then polygon (record { outer = ps; inners = [] }) else line_string ps

way_bytes-Reads :
    (srid : ℤ) (closed : Bool) (fuel : ℕ) (c : Cursor) (ps : List Point) (rest : Bytes)
    → IsI32 srid
    → IsRing ps
    → At c (way_bytes srid closed ps ++ rest)
    → Reads (decode_one (suc fuel) c) (with_srid srid (way_shape closed ps)) rest
unfolding way_bytes
way_bytes-Reads srid true fuel c ps rest z h at =
    polygon-Reads srid z fuel c rest ps [] (omega arith) h tt at
way_bytes-Reads srid false fuel c ps rest z h at = line-Reads srid z fuel c rest ps h at

-- The geometry that `buildWayGeom` makes of two points or more is decoded to exactly those points,
-- as a polygon if the way is a ring and as a line if it is not; and the flag that it returns says
-- which.
pub decode-build_way_geom :
    (double_eq : Double → Double → Bool) (srid : ℤ) (ps : List Point) (was_closed : Bool)
    → IsI32 srid
    → 2 ≤ length ps
    → IsRing ps
    → let (hex, closed) = build_way_geom double_eq srid ps was_closed in
      (decode (hex_to_bytes hex) ≡ found (with_srid srid (way_shape closed ps)))
      × (closed ≡ is_ring double_eq ps)
unfolding build_way_geom
decode-build_way_geom double_eq srid ps was_closed z long h =
    let closed = is_ring double_eq ps in
    let bs = way_bytes srid closed ps in
    let enough : ltb (length ps) 2 ≡ false = ground arith in
    rw (enough, hex_to_bytes-to_hex bs (way_bytes-IsByte srid closed ps))
      (
        decode-found bs _ [] (
            way_bytes-Reads srid closed (length bs) (start bs) ps [] z h
              (rw append-nil (start-At bs))),
        refl,
      )
