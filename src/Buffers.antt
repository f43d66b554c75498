-- ===== src/Buffers.antt =====
-- The bulk interface of `NavDB`, src/NavDB.cpp: inserts into buffers, which a COPY empties. What the
-- n-th COPY of a connection does is the parameter `copy`: it commits all of its rows, or none of
-- them, and then PostgreSQL's text may name the line of a bad row, where 0 stands for a number below
-- 1 too, or have what `std::stoi` does not read in its place. A table is the list of the rows
-- that were written to it.
pub mod Insert
pub mod Flush
pub mod Expected
pub mod Steps
pub mod Pushed
pub mod Complete
pub mod Retry
mod Tests
use gpsxdb.Prelude.{
  ℕ, zero, suc, ◌+◌, ◌-◌, Bool, true, false, not, ◌&&◌, ◌||◌, ltb, leb, ◌==◌, if◌then◌else◌, List,
  [], ◌∷◌, ◌++◌, length, Option, none, some,
}
use gpsxdb.Prelude.Int.{ℤ}
use gpsxdb.Bytes.{Double}
use gpsxdb.Wkb.Hex.{Text}
use gpsxdb.Nav.Sanitize.{sanitize_tag}
use gpsxdb.Nav.{
  Tags, Row, is_empty, is_excluded_tag_key, is_sign_or_barrier_value, is_droppable_nature_value,
  has_elevation_tag, has_surviving_tag,
}

-- `NodeRecord`, `GeomRecord` and `RelationRecord`.
pub record Record : Type 0 where
  pub id : ℤ
  pub row : Row

pub record TagRecord : Type 0 where
  pub id : ℤ
  pub key : Text
  pub value : Text

pub data Copied : Type 0 where
  committed : Copied
  bad_line : ℕ → Copied
  bad_number : Copied
  failed : Copied

-- A table and its tag table, with the buffers for them.
pub record Sink : Type 0 where
  pub rows : List Record
  pub tag_rows : List TagRecord
  pub buf : List Record
  pub tag_buf : List TagRecord

-- Nodes and relations share `tag_buf_`.
pub record Lane : Type 0 where
  pub rows : List Record
  pub tag_rows : List TagRecord
  pub buf : List Record

pub record Loading : Type 0 where
  pub ways : Sink
  pub areas : Sink
  pub roads : Sink
  pub nodes : Lane
  pub relations : Lane
  pub tag_buf : List TagRecord
  pub attempts : ℕ

-- An exception leaves the state as it was thrown.
pub data Flushed {ℓ} (A : Type ℓ) : Type ℓ where
  ok : A → Flushed A
  thrown : A → Flushed A

infixl 5 ◌>>=◌
abbrev pub ◌>>=◌ {ℓ} : {A : Type ℓ} → Flushed A → (A → Flushed A) → Flushed A
ok a >>= f = f a
thrown a >>= f = thrown a

abbrev pub map_flushed {ℓ κ} : {A : Type ℓ} {B : Type κ} → (A → B) → Flushed A → Flushed B
map_flushed f (ok a) = ok (f a)
map_flushed f (thrown a) = thrown (f a)

abbrev pub empty_sink : Sink
empty_sink = record { rows = []; tag_rows = []; buf = []; tag_buf = [] }

abbrev pub empty_lane : Lane
empty_lane = record { rows = []; tag_rows = []; buf = [] }

abbrev pub empty_loading : Loading
empty_loading = record {
  ways = empty_sink;
  areas = empty_sink;
  roads = empty_sink;
  nodes = empty_lane;
  relations = empty_lane;
  tag_buf = [];
  attempts = 0;
}

-- The loops of `addTags`, `addWayTags`, `addAreaTags` and `addRoadTags`, the last three of which have
-- no tests for nodes.
unfoldable pub is_added : Bool → Bool → Text → Text → Bool
is_added is_node has_elevation k v =
    if is_excluded_tag_key k
    then false
    else if is_node && is_sign_or_barrier_value k v
    then false
    else if is_node && (is_droppable_nature_value k v && not has_elevation)
    then false
    else not (is_empty (sanitize_tag k) || is_empty (sanitize_tag v))

unfoldable pub added_among : Bool → Bool → ℤ → Tags → List TagRecord
added_among is_node has_elevation id [] = []
added_among is_node has_elevation id ((k, v) ∷ tags) =
    let rest = added_among is_node has_elevation id tags in
    if is_added is_node has_elevation k v
    then record { id = id; key = sanitize_tag k; value = sanitize_tag v } ∷ rest
    else rest

unfoldable pub added_tags : Bool → ℤ → Tags → List TagRecord
added_tags is_node id tags = added_among is_node (is_node && has_elevation_tag tags) id tags

-- `buf.erase(buf.begin() + idx)`.
abbrev pub erase_at : ℕ → List Record → List Record
erase_at n [] = []
erase_at zero (r ∷ buf) = buf
erase_at (suc n) (r ∷ buf) = r ∷ erase_at n buf

pub record Batch : Type 0 where
  pub rows : List Record
  pub buf : List Record
  pub attempts : ℕ
  -- The count that `tryCopyBatch` returns.
  pub returned : ℕ
  -- `std::stoi` has thrown, out of `tryCopyBatch`.
  pub threw : Bool

abbrev pub give_up : ℕ → List Record → List Record → Batch
give_up n rows buf = record {
  rows = rows;
  buf = buf;
  attempts = n;
  returned = length buf;
  threw = false;
}

module _ (copy : ℕ → Copied) where
  -- Each round but the last drops a row, so a fuel of `length buf` is enough: without fuel, `buf` is
  -- empty.
  pub try_copy_batch : ℕ → ℕ → List Record → List Record → Batch
  try_copy_batch zero n rows buf = give_up n rows buf
  try_copy_batch (suc fuel) n rows [] = give_up n rows []
  try_copy_batch (suc fuel) n rows (r ∷ buf) = elim (copy n) [
    | committed ↦ record {
      rows = rows ++ (r ∷ buf);
      buf = r ∷ buf;
      attempts = n + 1;
      returned = length (r ∷ buf);
      threw = false;
    }
    | failed ↦ give_up (n + 1) rows (r ∷ buf)
    | bad_number ↦ record (give_up (n + 1) rows (r ∷ buf)) { threw = true }
    | bad_line line ↦ elim (line == 0 || ltb (length (r ∷ buf)) line) [
      | true ↦ give_up (n + 1) rows (r ∷ buf)
      | false ↦ try_copy_batch fuel (n + 1) rows (erase_at (line - 1) (r ∷ buf))
    ]
  ]

  -- The first COPY of a flush, and the retries if it fails.
  pub copy_batch : ℕ → List Record → List Record → Batch
  copy_batch n rows buf = elim (copy n) [
    | committed ↦ give_up (n + 1) (rows ++ buf) buf
    | _ ↦ try_copy_batch (length buf) (n + 1) rows buf
  ]

  -- `finalize_tags_locked`.
  pub finalize_tags : Sink × ℕ → Flushed (Sink × ℕ)
  finalize_tags (s, n) = elim s.tag_buf [
    | [] ↦ ok (s, n)
    | t ∷ ts ↦ elim (copy n) [
      | committed ↦ ok (record s { tag_rows = s.tag_rows ++ (t ∷ ts); tag_buf = [] }, n + 1)
      | _ ↦ thrown (s, n + 1)
    ]
  ]

  -- `flushViaTemp`, and `flushRelations`, which does the same.
  pub flush_via_temp : Sink × ℕ → Flushed (Sink × ℕ)
  flush_via_temp (s, n) = elim s.buf [
    | [] ↦ ok (s, n)
    | r ∷ buf ↦
        let b = copy_batch n s.rows (r ∷ buf) in
        let s' = record s { rows = b.rows; buf = b.buf } in
        if b.threw
        then thrown (s', b.attempts)
        else finalize_tags (s', b.attempts) >>= λ (t, m). ok (record t { buf = [] }, m)
  ]

  -- The rows and then the tags of nodes; there is no retry.
  pub flush_node_sink : Sink × ℕ → Flushed (Sink × ℕ)
  flush_node_sink (s, n) = elim s.buf [
    | [] ↦ ok (s, n)
    | r ∷ buf ↦ elim (copy n) [
      | committed ↦ finalize_tags (record s { rows = s.rows ++ (r ∷ buf) }, n + 1) >>= λ (t, m).
          ok (record t { buf = [] }, m)
      | _ ↦ thrown (s, n + 1)
    ]
  ]
