-- ===== src/NodeStore/Map.antt =====
-- The contract of the store: a finite map from node ids to coordinates. `DeltaApplier` changes it
-- by `update` and `remove` and reads it by `select`.
use gpsxdb.Prelude.{
  ℕ, ◌-◌, ◌%◌, ◌^◌, ◌<◌, ◌≤◌, ◌≡◌, refl, ◌∙◌, ap, ◌==◌, if◌then◌else◌, arith, List, [], ◌∷◌, All,
  Option, none, some,
}
use gpsxdb.Prelude.Int.{ℤ, pos}
use gpsxdb.Bytes.Bits.{bit-zero}
use gpsxdb.Bytes.Signed.{to_size, IsI64}
use gpsxdb.NodeStore.{
  Coord, Store, Access, done, segv, max_sane_node_id, bitmap_get, create_file, update, remove,
  select,
}
use gpsxdb.NodeStore.Laws.{IsValid, view, select-view}
use gpsxdb.NodeStore.Writes.{Returns, update-Writes, remove-Writes}

-- A change to the store.
pub data Change : Type 0 where
  put : ℕ → Coord → Change
  drop : ℕ → Change

pub apply_change : Store → Change → Access Store
apply_change s (put n p) = update s (pos n) p
apply_change s (drop n) = remove s (pos n)

-- The changes in turn; a fault ends the process.
pub apply_changes : Store → List Change → Access Store
apply_changes s [] = done s
apply_changes s (c ∷ cs) = elim (apply_change s c) [ done t ↦ apply_changes t cs | segv ↦ segv ]

-- The changes to the abstract map.
abbrev pub map_change : (ℕ → Option Coord) → Change → ℕ → Option Coord
map_change m (put n p) j = if j == n then some p else m j
map_change m (drop n) j = if j == n then none else m j

abbrev pub map_changes : (ℕ → Option Coord) → List Change → ℕ → Option Coord
map_changes m [] = m
map_changes m (c ∷ cs) = map_changes (map_change m c) cs

abbrev pub empty_map : ℕ → Option Coord
empty_map j = none

-- `update` only with ids below its sanity ceiling; `remove` has none.
abbrev pub IsPlausible : Change → Type 0
IsPlausible (put n p) = n ≤ max_sane_node_id
IsPlausible (drop n) = n < 2 ^ 60 - 1

pub create_file-IsValid : (m : ℕ) → m < 2 ^ 54 → IsValid (create_file m)
unfolding create_file bitmap_get
create_file-IsValid m h = record {
  small = omega arith;
  tight = omega arith;
  bytes = λ i. omega arith;
  held = λ j e. ground (arith, bit-zero (j % 8) (omega arith));
}

pub view-create_file : (m j : ℕ) → view (create_file m) j ≡ none
unfolding create_file bitmap_get
view-create_file m j = ground (arith, bit-zero (j % 8) (omega arith))

-- The store holds what the map `m` says.
pub record Models (m : ℕ → Option Coord) (s : Store) : Type 0 where
  pub valid : IsValid s
  pub reads : (j : ℕ) → view s j ≡ m j

apply_change-Models :
    (m : ℕ → Option Coord) (s : Store) (c : Change)
    → IsPlausible c
    → Models m s
    → Returns (apply_change s c) (Models (map_change m c))
unfolding apply_change
apply_change-Models m s (put n p) ok h =
    let (t, run, w) = update-Writes s h.valid n ok p in
    (
      t,
      run,
      record {
        valid = w.valid;
        reads = λ j. w.views j ∙ ap (λ o. if j == n then some p else o) (h.reads j);
      },
    )
apply_change-Models m s (drop n) ok h =
    let (t, run, w) = remove-Writes s h.valid n ok in
    (
      t,
      run,
      record {
        valid = w.valid;
        reads = λ j. w.views j ∙ ap (λ o. if j == n then none else o) (h.reads j);
      },
    )

apply_changes-Models :
    (m : ℕ → Option Coord) (s : Store) (cs : List Change)
    → All IsPlausible cs
    → Models m s
    → Returns (apply_changes s cs) (Models (map_changes m cs))
unfolding apply_changes
apply_changes-Models m s [] ok h = (s, refl, h)
apply_changes-Models m s (c ∷ cs) ok h =
    let (t, run, ht) = apply_change-Models m s c ok.0 h in
    let (u, run', hu) = apply_changes-Models (map_change m c) t cs ok.1 ht in
    (u, rw (run, apply_changes) run', hu)

-- Whatever plausible changes are made to a new store, in whatever order and beyond its first
-- capacity, no access leaves the mapping, and `select` then gives for every 64-bit id what a map
-- gives to which the same changes were made.
pub select-apply_changes :
    (max_id : ℕ) (cs : List Change) (id : ℤ)
    → max_id < 2 ^ 54
    → All IsPlausible cs
    → IsI64 id
    → Returns
        (apply_changes (create_file max_id) cs)
        (λ t. select t id ≡ done (map_changes empty_map cs (to_size id)))
select-apply_changes max_id cs id small ok h =
    let start : Models empty_map (create_file max_id) = record {
      valid = create_file-IsValid max_id small;
      reads = view-create_file max_id;
    } in
    let (t, run, ht) = apply_changes-Models empty_map (create_file max_id) cs ok start in
    (t, run, select-view t id ht.valid h ∙ ap done (ht.reads (to_size id)))
