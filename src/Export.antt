-- ===== src/Export.antt =====
-- src/regional_db_export.cpp: `processPair`, which divides the rows of a table and of its tags among
-- the regions. A row stands for its bytes, which are written as they came. `SELECT ... BETWEEN` keeps
-- the rows with an id in a window, in their order; `RegionIndex::matches` of each region is a test.
-- A bit of a mask is there for each of at most 32 regions. Chunks are taken by their number, as the
-- merge reads their files; each row of a chunk is tried for one region at a time. The ids do not
-- overflow, files and queries succeed, and the vertices outside of a region are left out.
pub mod Lookup
pub mod Windows
pub mod Counted
pub mod Divided
mod Tests
use gpsxdb.Prelude.{
  ℕ, zero, suc, ◌+◌, ◌-◌, ◌*◌, ◌/◌, ◌%◌, min, max, Bool, true, false, not, ◌&&◌, ltb, ◌==◌,
  if◌then◌else◌, List, [], ◌∷◌, ◌++◌, map, get_or, Option, none, some,
}
use gpsxdb.Prelude.Int.{ℤ, pos, negsuc, pos_part, neg_part, ltb_ℤ, eqb_ℤ}
use gpsxdb.Bytes.{Bytes}
use gpsxdb.Wkb.Geometry.{Geom, Outcome, found}
use gpsxdb.Wkb.Decode.{decode}

pub record Row : Type 0 where
  pub id : ℤ
  pub geog : Option Bytes
  pub raw : Bytes

-- A sum of an id and an offset.
pub shift : ℤ → ℕ → ℤ
shift (pos n) k = pos (n + k)
shift (negsuc n) k = if ltb n k then pos (k - n - 1) else negsuc (n - k)

-- `b - a` where it is not negative.
abbrev pub distance : ℤ → ℤ → ℕ
distance a b = (pos_part b + neg_part a) - (pos_part a + neg_part b)

abbrev pub between : ℤ → ℤ → ℤ → Bool
between lo hi id = not (ltb_ℤ id lo) && not (ltb_ℤ hi id)

-- The rows that pass a test, in their order.
abbrev pub filter : (Row → Bool) → List Row → List Row
filter p [] = []
filter p (r ∷ rs) = let rest = filter p rs in if p r then r ∷ rest else rest

-- `bitmask |= (1u << ri)` for each region that matches, the first in the lowest bit.
pub mask_of : List Bool → ℕ
mask_of [] = 0
mask_of (b ∷ bs) = (if b then 1 else 0) + 2 * mask_of bs

-- `bitmask & (1u << ri)`.
pub has_bit : ℕ → ℕ → Bool
has_bit mask zero = mask % 2 == 1
has_bit mask (suc ri) = has_bit (mask / 2) ri

abbrev pub LocalMap : Type 0
LocalMap = List (ℤ × ℕ)

-- `std::sort` by id.
pub insert_entry : ℤ → ℕ → LocalMap → LocalMap
insert_entry id mask [] = (id, mask) ∷ []
insert_entry id mask ((j, m) ∷ entries) =
    if ltb_ℤ j id then (j, m) ∷ insert_entry id mask entries else (id, mask) ∷ (j, m) ∷ entries

pub sort : LocalMap → LocalMap
sort [] = []
sort ((id, mask) ∷ entries) = insert_entry id mask (sort entries)

-- `std::lower_bound`, and the test of the entry that it finds.
pub lookup_bitmask : LocalMap → ℤ → ℕ
lookup_bitmask [] id = 0
lookup_bitmask ((j, m) ∷ entries) id =
    if ltb_ℤ j id then lookup_bitmask entries id else if eqb_ℤ j id then m else 0

abbrev pub chunks_per_thread : ℕ
chunks_per_thread = 8

module _ (min_id max_id : ℤ) (threads : ℕ) where
  abbrev pub span : ℕ
  span = distance min_id max_id + 1

  pub chunk_count : ℕ
  chunk_count = max 1 (min (max 1 threads * chunks_per_thread) span)

  pub chunk_size : ℕ
  chunk_size = (span + chunk_count - 1) / chunk_count

  -- `windowFor`, as the test of the query.
  pub in_window : ℕ → ℤ → Bool
  in_window ci id =
      let lo = shift min_id (ci * chunk_size) in
      let end = shift min_id (ci * chunk_size + chunk_size - 1) in
      let hi = if ltb_ℤ max_id end then max_id else end in between lo hi id

module _ (regions : List (Geom → Bool)) where
  -- Which regions match a row; none where the geometry is null or is not decoded.
  unfoldable pub hits : Row → List Bool
  hits r = elim r.geog [
    | none ↦ []
    | some bytes ↦ elim (decode bytes) [ found d ↦ map (λ test. test d.geom) regions | _ ↦ [] ]
  ]

  abbrev pub is_hit : ℕ → Row → Bool
  is_hit ri r = get_or (hits r) ri false

  -- The entries of the rows that match a region.
  pub local_map : List Row → LocalMap
  local_map [] = []
  local_map (r ∷ rs) =
      let mask = mask_of (hits r) in
      let rest = local_map rs in if mask == 0 then rest else (r.id, mask) ∷ rest

  module _ (min_id max_id : ℤ) (threads : ℕ) (ri : ℕ) where
    abbrev pub window_rows : ℕ → List Row → List Row
    window_rows ci rows = filter (λ r. in_window min_id max_id threads ci r.id) rows

    -- What the region gets of a chunk, in the parent pass and in the child pass.
    abbrev pub parent_chunk : List Row → ℕ → List Row
    parent_chunk parents ci = filter (is_hit ri) (window_rows ci parents)

    abbrev pub child_chunk : List Row → List Row → ℕ → List Row
    child_chunk parents children ci =
        let entries = sort (local_map (window_rows ci parents)) in
        filter (λ c. has_bit (lookup_bitmask entries c.id) ri) (window_rows ci children)

-- `mergeTempFiles` over `k` chunks from the number `ci` on.
pub merge_chunks : (ℕ → List Row) → ℕ → ℕ → List Row
merge_chunks chunk zero ci = []
merge_chunks chunk (suc k) ci = chunk ci ++ merge_chunks chunk k (ci + 1)

-- What `processPair` writes for a region: the rows of the table and those of its tags.
pub process_pair : List (Geom → Bool) → ℤ → ℤ → ℕ → ℕ → List Row → List Row → List Row × List Row
process_pair regions min_id max_id threads ri parents children =
    let n = chunk_count min_id max_id threads in
    if ltb_ℤ max_id min_id then ([], []) else (
      merge_chunks (parent_chunk regions min_id max_id threads ri parents) n 0,
      merge_chunks (child_chunk regions min_id max_id threads ri parents children) n 0,
    )
