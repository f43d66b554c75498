-- ===== src/Nav.antt =====
-- The update interface of `NavDB`, src/NavDB.cpp: the filter on tags, `diffTags`, and the upserts and
-- deletions of one entity. A table is a function from ids to its row. The SQL of each function is one
-- transaction, which succeeds; PostgreSQL's `ON CONFLICT (id) DO UPDATE` replaces the row. A map of
-- tags is a list of pairs in the order in which its iteration visits them.
pub mod Sanitize
pub mod Names
pub mod Utf8
pub mod Keys
pub mod Consistent
mod Tests
use gpsxdb.Prelude.{
  ℕ, zero, suc, Bool, true, false, not, ◌&&◌, ◌||◌, ◌==◌, if◌then◌else◌, List, [], ◌∷◌, ◌++◌,
  Option, none, some,
}
use gpsxdb.Prelude.Int.{ℤ, eqb_ℤ}
use gpsxdb.Bytes.{Double}
use gpsxdb.Wkb.Hex.{Text}
use gpsxdb.Nav.Sanitize.{sanitize_tag}
use gpsxdb.Nav.Names.{
  excluded_keys, excluded_prefixes, kept_buildings, dropped_highways, dropped_barriers,
  dropped_natures, building_text, traffic_sign_text, highway_text, barrier_text, natural_text,
  height_text, ele_text,
}

abbrev pub Tags : Type 0
Tags = List (Text × Text)

unfoldable pub same_text : Text → Text → Bool
same_text [] [] = true
same_text [] (b ∷ bs) = false
same_text (a ∷ as') [] = false
same_text (a ∷ as') (b ∷ bs) = if a == b then same_text as' bs else false

abbrev pub is_empty : Text → Bool
is_empty [] = true
is_empty (c ∷ s) = false

unfoldable pub among : Text → List Text → Bool
among s [] = false
among s (t ∷ ts) = if same_text s t then true else among s ts

-- `key.compare(0, p.size(), p) == 0`.
unfoldable pub starts_with : Text → Text → Bool
starts_with [] key = true
starts_with (p ∷ ps) [] = false
starts_with (p ∷ ps) (c ∷ key) = if p == c then starts_with ps key else false

unfoldable pub starts_with_any : List Text → Text → Bool
starts_with_any [] key = false
starts_with_any (p ∷ ps) key = if starts_with p key then true else starts_with_any ps key

unfoldable pub is_excluded_tag_key : Text → Bool
is_excluded_tag_key key =
    if among key excluded_keys then true else starts_with_any excluded_prefixes key

unfoldable pub is_aviation_relevant_building_value : Text → Bool
is_aviation_relevant_building_value value = among value kept_buildings

unfoldable pub is_sign_or_barrier_value : Text → Text → Bool
is_sign_or_barrier_value key value =
    if same_text key traffic_sign_text
    then true
    else if same_text key highway_text && among value dropped_highways
    then true
    else same_text key barrier_text && among value dropped_barriers

unfoldable pub is_droppable_nature_value : Text → Text → Bool
is_droppable_nature_value key value = same_text key natural_text && among value dropped_natures

-- `find` on a map.
unfoldable pub find_tag : Text → Tags → Option Text
find_tag k [] = none
find_tag k ((j, v) ∷ tags) = if same_text j k then some v else find_tag k tags

unfoldable pub has : Tags → Text → Bool
has tags key = elim (find_tag key tags) [ none ↦ false | some v ↦ not (is_empty v) ]

unfoldable pub has_elevation_tag : Tags → Bool
has_elevation_tag tags = has tags height_text || has tags ele_text

-- The guards that `hasSurvivingTag` and `diffTags` repeat.
unfoldable pub is_dropped : Bool → Bool → Text → Text → Bool
is_dropped is_node has_elevation k v =
    if is_excluded_tag_key k
    then true
    else if same_text k building_text && not (is_aviation_relevant_building_value v)
    then true
    else if is_node && is_sign_or_barrier_value k v
    then true
    else if is_node && (is_droppable_nature_value k v && not has_elevation)
    then true
    else is_empty (sanitize_tag k) || is_empty (sanitize_tag v)

unfoldable pub survives_among : Bool → Bool → Tags → Bool
survives_among is_node has_elevation [] = false
survives_among is_node has_elevation ((k, v) ∷ tags) =
    if is_dropped is_node has_elevation k v then survives_among is_node has_elevation tags else true

unfoldable pub has_surviving_tag : Bool → Tags → Bool
has_surviving_tag is_node tags = survives_among is_node (is_node && has_elevation_tag tags) tags

-- `existing[k] = v`.
unfoldable pub store : Text → Text → Tags → Tags
store k v [] = (k, v) ∷ []
store k v ((j, u) ∷ tags) = if same_text j k then (j, v) ∷ tags else (j, u) ∷ store k v tags

unfoldable pub store_all : Tags → Tags → Tags
store_all [] m = m
store_all ((k, v) ∷ rows) m = store_all rows (store k v m)

-- `DELETE ... WHERE key_name=k`, and `erase` of a map.
unfoldable pub erase : Text → Tags → Tags
erase k [] = []
erase k ((j, u) ∷ tags) = if same_text j k then erase k tags else (j, u) ∷ erase k tags

-- `UPDATE ... SET key_value=v WHERE key_name=k`.
pub set_value : Text → Text → Tags → Tags
set_value k v [] = []
set_value k v ((j, u) ∷ rows) = (if same_text j k then (j, v) else (j, u)) ∷ set_value k v rows

pub write_tag : Text → Text → Tags → Tags → Tags
write_tag ck cv rows existing = elim (find_tag ck existing) [
  | none ↦ rows ++ ((ck, cv) ∷ [])
  | some v ↦ if same_text v cv then rows else set_value ck cv rows
]

-- The loop over the tags: the rows of the entity, and what `existing` holds still.
pub diff_loop : Bool → Bool → Tags → Tags → Tags → Tags × Tags
diff_loop is_node has_elevation [] rows existing = (rows, existing)
diff_loop is_node has_elevation ((k, v) ∷ tags) rows existing =
    elim (is_dropped is_node has_elevation k v) [
      | true ↦ diff_loop is_node has_elevation tags rows existing
      | false ↦
          let ck = sanitize_tag k in
          diff_loop is_node has_elevation tags (write_tag ck (sanitize_tag v) rows existing)
            (erase ck existing)
    ]

-- The loop of deletions.
pub erase_all : Tags → Tags → Tags
erase_all [] rows = rows
erase_all ((k, v) ∷ existing) rows = erase_all existing (erase k rows)

-- `diffTags` on the rows of one entity in a tag table.
pub diff_tags : Bool → Tags → Tags → Tags
diff_tags is_node rows tags =
    let (rows', existing) =
      diff_loop is_node (is_node && has_elevation_tag tags) tags rows (store_all rows []) in
    erase_all existing rows'

-- The columns of a row but its id. A row of `nodes` has coordinates too.
pub record Row : Type 0 where
  pub name : Text
  pub geog : Option Text
  pub at : Option (Double × Double)

-- A main table and its tag table.
pub record Table : Type 0 where
  pub row : ℤ → Option Row
  pub tags : ℤ → Tags

pub data Kind : Type 0 where
  node way area road relation : Kind

pub record NavDb : Type 0 where
  pub nodes : Table
  pub ways : Table
  pub areas : Table
  pub roads : Table
  pub relations : Table

unfoldable pub put {ℓ} : {A : Type ℓ} → (ℤ → A) → ℤ → A → ℤ → A
put f id a j = if eqb_ℤ j id then a else f j

-- The transaction that the five updates share: the row, then the tags.
unfoldable pub upsert : Bool → Table → ℤ → Row → Tags → Table
upsert is_node t id r tags = record {
  row = put t.row id (if has_surviving_tag is_node tags then some r else none);
  tags = put t.tags id (diff_tags is_node (t.tags id) tags);
}

unfoldable pub delete_row : Table → ℤ → Table
delete_row t id = record { row = put t.row id none; tags = put t.tags id [] }

unfoldable pub update_node : NavDb → ℤ → Text → Double → Double → Tags → Text → NavDb
update_node db id name lon_m lat_m tags geog = record db {
  nodes =
      upsert true db.nodes id (record { name = name; geog = some geog; at = some (lon_m, lat_m) })
        tags;
}

unfoldable pub update_way : NavDb → ℤ → Text → Tags → Text → NavDb
update_way db id name tags geog = record db {
  ways = upsert false db.ways id (record { name = name; geog = some geog; at = none }) tags;
}

unfoldable pub update_area : NavDb → ℤ → Text → Tags → Text → NavDb
update_area db id name tags geog = record db {
  areas = upsert false db.areas id (record { name = name; geog = some geog; at = none }) tags;
}

-- An empty geometry becomes a null.
unfoldable pub update_relation : NavDb → ℤ → Text → Tags → Text → NavDb
update_relation db id name tags geog =
    let g = if is_empty geog then none else some geog in
    record db {
      relations = upsert false db.relations id (record { name = name; geog = g; at = none }) tags;
    }

unfoldable pub update_road : NavDb → ℤ → Text → Tags → Text → NavDb
update_road db id name tags geog = record db {
  roads = upsert false db.roads id (record { name = name; geog = some geog; at = none }) tags;
}

unfoldable pub delete_entity : NavDb → ℤ → Kind → NavDb
delete_entity db id node = record db { nodes = delete_row db.nodes id }
delete_entity db id way = record db { ways = delete_row db.ways id }
delete_entity db id area = record db { areas = delete_row db.areas id }
delete_entity db id road = record db { roads = delete_row db.roads id }
delete_entity db id relation = record db { relations = delete_row db.relations id }

unfoldable pub geog_text : Row → Text
geog_text r = elim r.geog [ none ↦ [] | some g ↦ g ]

-- The row of `ways` comes before that of `areas`; an absent or null geometry is an empty text.
unfoldable pub get_way : NavDb → ℤ → Text
get_way db id = elim (db.ways.row id) [
  | some r ↦ geog_text r
  | none ↦ elim (db.areas.row id) [ some r ↦ geog_text r | none ↦ [] ]
]
