-- ===== src/Import.antt =====
-- src/main.cpp: which table an entity goes to on the first import.
pub mod Names
pub mod Multipolygon
pub mod Assembled
pub mod Assembly
pub mod Entries
pub mod Areas
pub mod Holes
pub mod Stored
mod Tests
use gpsxdb.Prelude.{Bool, true, false, ◌&&◌, if◌then◌else◌, List, [], ◌∷◌, Option, none, some}
use gpsxdb.Wkb.Hex.{Text}
use gpsxdb.Nav.{Tags, same_text, among, find_tag}
use gpsxdb.Import.Names.{area_text, yes_text, no_text, linear_keys, linear_tag_values, area_keys}

-- `for (auto& [k, v] : tags) if (keys.count(k))`.
pub any_key : List Text → Tags → Bool
any_key keys [] = false
any_key keys ((k, v) ∷ tags) = if among k keys then true else any_key keys tags

pub any_value : Tags → List (Text × Text) → Bool
any_value tags [] = false
any_value tags ((k, v) ∷ pairs) = elim (find_tag k tags) [
  | none ↦ any_value tags pairs
  | some u ↦ if same_text u v then true else any_value tags pairs
]

pub implies_area : Tags → Bool
implies_area tags =
    if any_key linear_keys tags
    then false
    else if any_value tags linear_tag_values
    then false
    else any_key area_keys tags

pub is_area : Bool → Tags → Bool
is_area is_closed tags =
    if is_closed
    then elim (find_tag area_text tags) [
      | none ↦ implies_area tags
      | some v ↦
          if same_text v yes_text
          then true
          else if same_text v no_text
          then false
          else implies_area tags
    ]
    else false
