-- ===== src/Wkb/Encode/Valid.antt =====
-- The encoders write bytes, so that their hex text stands for what they wrote.
use gpsxdb.Prelude.{
  ℕ, ◌+◌, ◌%◌, ◌^◌, ◌≡◌, Bool, true, false, List, [], ◌∷◌, ◌++◌, arith, length, All, All-append,
  ltb, ◌&&◌, Bool-cases, inl, inr,
}
use gpsxdb.Prelude.Int.{ℤ}
use gpsxdb.Bytes.{Bytes, IsByte, write_le32, write_le, write_le-IsByte, write_le32-IsByte}
use gpsxdb.Bytes.Signed.{to_u32}
use gpsxdb.Wkb.Geometry.{Point}
use gpsxdb.Wkb.Encode.{
  write_points, write_wkb_ring, write_wkb_rings, write_header, write_wkb_polygon, line_bytes,
  point_bytes, way_bytes, concat, multi_line_bytes, is_linear, linear_parts, merged,
}
use gpsxdb.Wkb.Hex.{Text, hex_to_bytes, hex_to_bytes-IsByte}

join-IsByte : (xs ys : Bytes) → All IsByte xs → All IsByte ys → All IsByte (xs ++ ys)
join-IsByte = All-append IsByte

write_points-IsByte : (ps : List Point) → All IsByte (write_points ps)
unfolding write_points
write_points-IsByte [] = tt
write_points-IsByte (p ∷ ps) =
    join-IsByte (write_le 8 p.0) _ (write_le-IsByte 8 p.0)
      (join-IsByte (write_le 8 p.1) _ (write_le-IsByte 8 p.1) (write_points-IsByte ps))

write_wkb_ring-IsByte : (ps : List Point) → All IsByte (write_wkb_ring ps)
unfolding write_wkb_ring
write_wkb_ring-IsByte ps =
    join-IsByte (write_le32 (length ps % 2 ^ 32)) _ (write_le32-IsByte (length ps % 2 ^ 32))
      (write_points-IsByte ps)

write_wkb_rings-IsByte : (rs : List (List Point)) → All IsByte (write_wkb_rings rs)
unfolding write_wkb_rings
write_wkb_rings-IsByte [] = tt
write_wkb_rings-IsByte (r ∷ rs) =
    join-IsByte (write_wkb_ring r) _ (write_wkb_ring-IsByte r) (write_wkb_rings-IsByte rs)

pub write_header-IsByte :
    (srid : ℤ) (type : ℕ) (body : Bytes)
    → All IsByte body
    → All IsByte (write_header srid type body)
unfolding write_header
write_header-IsByte srid type body h = (
  omega arith,
  join-IsByte (write_le32 (0x20000000 + type)) _ (write_le32-IsByte (0x20000000 + type))
      (join-IsByte (write_le32 (to_u32 srid)) _ (write_le32-IsByte (to_u32 srid)) h),
)

pub point_bytes-IsByte : (srid : ℤ) (p : Point) → All IsByte (point_bytes srid p)
unfolding point_bytes
point_bytes-IsByte srid (x, y) =
    write_header-IsByte srid 1 _
      (join-IsByte (write_le 8 x) _ (write_le-IsByte 8 x) (write_le-IsByte 8 y))

pub line_bytes-IsByte : (srid : ℤ) (ps : List Point) → All IsByte (line_bytes srid ps)
unfolding line_bytes
line_bytes-IsByte srid ps = write_header-IsByte srid 2 _ (write_wkb_ring-IsByte ps)

pub write_wkb_polygon-IsByte :
    (srid : ℤ) (outer : List Point) (inners : List (List Point))
    → All IsByte (write_wkb_polygon srid outer inners)
unfolding write_wkb_polygon
write_wkb_polygon-IsByte srid outer inners = write_header-IsByte srid 3 _ (
    join-IsByte (write_le32 ((1 + length inners) % 2 ^ 32)) _ (write_le32-IsByte _) (
      join-IsByte (write_wkb_ring outer) _ (write_wkb_ring-IsByte outer)
        (write_wkb_rings-IsByte inners)))

pub way_bytes-IsByte :
    (srid : ℤ) (closed : Bool) (ps : List Point) → All IsByte (way_bytes srid closed ps)
unfolding way_bytes
way_bytes-IsByte srid true ps = write_wkb_polygon-IsByte srid ps []
way_bytes-IsByte srid false ps = line_bytes-IsByte srid ps

pub concat-IsByte : (parts : List Bytes) → All (All IsByte) parts → All IsByte (concat parts)
unfolding concat
concat-IsByte [] h = tt
concat-IsByte (p ∷ ps) h = join-IsByte p _ h.0 (concat-IsByte ps h.1)

pub multi_line_bytes-IsByte :
    (srid : ℤ) (parts : List Bytes)
    → All (All IsByte) parts
    → All IsByte (multi_line_bytes srid parts)
unfolding multi_line_bytes
multi_line_bytes-IsByte srid parts h = write_header-IsByte srid 5 _ (
    join-IsByte (write_le32 (length parts % 2 ^ 32)) _ (write_le32-IsByte _)
      (concat-IsByte parts h))

-- The type test of `isLinear` on a header that an encoder wrote.
pub is_linear-line_bytes : (srid : ℤ) (ps : List Point) → is_linear (line_bytes srid ps) ≡ true
unfolding is_linear line_bytes write_header write_le32
is_linear-line_bytes srid ps = ground arith

pub is_linear-polygon :
    (srid : ℤ) (outer : List Point) (inners : List (List Point))
    → is_linear (write_wkb_polygon srid outer inners) ≡ false
unfolding is_linear write_wkb_polygon write_header write_le32
is_linear-polygon srid outer inners = ground arith

pub is_linear-multi_line :
    (srid : ℤ) (parts : List Bytes) → is_linear (multi_line_bytes srid parts) ≡ true
unfolding is_linear multi_line_bytes write_header write_le32
is_linear-multi_line srid parts = ground arith

pub linear_parts-IsByte : (hs : List Text) → All (All IsByte) (linear_parts hs)
unfolding linear_parts
linear_parts-IsByte [] = tt
linear_parts-IsByte (h ∷ hs) = elim (Bool-cases (ltb 0 (length h) && is_linear (hex_to_bytes h))) [
  | inl e ↦ rw e (hex_to_bytes-IsByte h, linear_parts-IsByte hs)
  | inr e ↦ rw e (linear_parts-IsByte hs)
]

pub merged-IsByte :
    (srid : ℤ) (parts : List Bytes) → All (All IsByte) parts → All IsByte (merged srid parts)
unfolding merged
merged-IsByte srid [] h = tt
merged-IsByte srid (p ∷ ps) h = multi_line_bytes-IsByte srid (p ∷ ps) h
