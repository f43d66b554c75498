-- ===== src/Buffers/Expected.antt =====
-- What the tables hold in the end, told without buffers.
use gpsxdb.Prelude.{
  ℕ, Bool, true, false, ◌&&◌, ◌==◌, if◌then◌else◌, List, [], ◌∷◌, ◌++◌, none, some,
}
use gpsxdb.Nav.{Tags, Kind, Row, has_surviving_tag}
use gpsxdb.Buffers.{Record, TagRecord, added_tags}
use gpsxdb.Buffers.Insert.{Insert, relation_geog}

abbrev code : Kind → ℕ
code Kind.node = 0
code Kind.way = 1
code Kind.area = 2
code Kind.road = 3
code Kind.relation = 4

abbrev pub same_kind : Kind → Kind → Bool
same_kind j k = code j == code k

-- Roads and relations are stored with whatever tags they have.
abbrev pub accepted : Kind → Tags → Bool
accepted Kind.node tags = has_surviving_tag true tags
accepted Kind.way tags = has_surviving_tag false tags
accepted Kind.area tags = has_surviving_tag false tags
accepted Kind.road tags = true
accepted Kind.relation tags = true

abbrev pub row_of : Insert → Row
row_of i = record {
  name = i.name;
  geog = if same_kind i.kind Kind.relation then relation_geog i.geog else some i.geog;
  at = if same_kind i.kind Kind.node then i.at else none;
}

-- What an insert adds to the table of a kind, and to its tag table.
abbrev pub new_rows : Kind → Insert → List Record
new_rows k i =
    if accepted i.kind i.tags && same_kind k i.kind
    then record { id = i.id; row = row_of i } ∷ []
    else []

abbrev pub new_tags : Kind → Insert → List TagRecord
new_tags k i =
    if accepted i.kind i.tags && same_kind k i.kind
    then added_tags (same_kind i.kind Kind.node) i.id i.tags
    else []

abbrev pub rows_of : Kind → List Insert → List Record
rows_of k [] = []
rows_of k (i ∷ is) = new_rows k i ++ rows_of k is

abbrev pub tags_of : Kind → List Insert → List TagRecord
tags_of k [] = []
tags_of k (i ∷ is) = new_tags k i ++ tags_of k is
