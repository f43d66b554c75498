-- ===== src/OsmReader.antt =====
-- src/OSMReader.cpp: the entries of a block of a PBF file. The messages of protobuf are records, as
-- its parser gives them; integers wrap, also signed ones, the overflow of which C++ leaves undefined.
-- `none` stands for an access outside of a repeated field, which the code does not test for. Indices
-- into the table of strings are not negative.
pub mod Encode
pub mod RoundTrip
pub mod Blobs
mod Tests
use gpsxdb.Prelude.{
  ℕ, zero, suc, ◌+◌, ◌*◌, ◌%◌, ◌^◌, ◌==◌, if◌then◌else◌, List, [], ◌∷◌, ◌++◌, Option, none, some,
  get_elem?, get_or, drop,
}
use gpsxdb.Prelude.Int.{ℤ, pos}
use gpsxdb.Bytes.{Double}
use gpsxdb.Bytes.Signed.{to_size, to_i64}
use gpsxdb.Wkb.Hex.{Text}
use gpsxdb.Nav.{Tags, store}
use gpsxdb.Delta.{NodeEntry, WayEntry}
use gpsxdb.OscReader.{name_of}
use gpsxdb.Import.Multipolygon.{Member}
use gpsxdb.Import.Entries.{Relation}

infixl 5 ◌>>=◌
abbrev pub ◌>>=◌ {ℓ κ} : {A : Type ℓ} {B : Type κ} → Option A → (A → Option B) → Option B
some a >>= f = f a
none >>= f = none

-- `int64_t` arithmetic.
pub add_i64 : ℤ → ℤ → ℤ
add_i64 a b = to_i64 ((to_size a + to_size b) % 2 ^ 64)

pub mul_i64 : ℤ → ℤ → ℤ
mul_i64 a b = to_i64 (to_size a * to_size b % 2 ^ 64)

pub record DenseNodes : Type 0 where
  pub ids : List ℤ
  pub lats : List ℤ
  pub lons : List ℤ
  pub keys_vals : List ℕ

pub record PbfNode : Type 0 where
  pub id : ℤ
  pub lat : ℤ
  pub lon : ℤ
  pub keys : List ℕ
  pub vals : List ℕ

pub record PbfWay : Type 0 where
  pub id : ℤ
  pub keys : List ℕ
  pub vals : List ℕ
  pub refs : List ℤ

pub data MemberType : Type 0 where
  node_type way_type relation_type : MemberType

pub record PbfRelation : Type 0 where
  pub id : ℤ
  pub keys : List ℕ
  pub vals : List ℕ
  pub memids : List ℤ
  pub types : List MemberType
  pub roles_sid : List ℕ

pub record PrimitiveGroup : Type 0 where
  pub dense : Option DenseNodes
  pub nodes : List PbfNode
  pub ways : List PbfWay
  pub relations : List PbfRelation

pub record PrimitiveBlock : Type 0 where
  pub granularity : ℤ
  pub lat_offset : ℤ
  pub lon_offset : ℤ
  pub strtable : List Text
  pub groups : List PrimitiveGroup

pub data OsmEntry : Type 0 where
  node_entry : NodeEntry → OsmEntry
  way_entry : WayEntry → OsmEntry
  relation_entry : Relation → OsmEntry

module _ (strtable : List Text) where
  -- `tags[strtable.Get(k)] = strtable.Get(v)`.
  pub set_tag : ℕ → ℕ → Tags → Option Tags
  set_tag k v tags =
      get_elem? strtable k >>= λ key. get_elem? strtable v >>= λ value. some (store key value tags)

  -- The loop of `getTags`, after the tags that it has set.
  pub tags_from : List ℕ → List ℕ → Tags → Option Tags
  tags_from [] vals tags = some tags
  tags_from (k ∷ keys) [] tags = none
  tags_from (k ∷ keys) (v ∷ vals) tags = set_tag k v tags >>= λ more. tags_from keys vals more

  pub get_tags : List ℕ → List ℕ → Option Tags
  get_tags keys vals = tags_from keys vals []

  -- The loop on `kv_idx`: the tags of a dense node, and the numbers after its delimiter.
  pub dense_tags : List ℕ → Tags → Option (Tags × List ℕ)
  dense_tags [] tags = some (tags, [])
  dense_tags (zero ∷ kv) tags = some (tags, kv)
  dense_tags (suc k ∷ []) tags = none
  dense_tags (suc k ∷ v ∷ kv) tags = set_tag (suc k) v tags >>= λ more. dense_tags kv more

  -- The members that are ways; a role beyond the table is empty.
  pub members_from : ℤ → List ℤ → List MemberType → List ℕ → Option (List Member)
  members_from cur_memid [] types roles = some []
  members_from cur_memid (m ∷ memids) [] roles = none
  members_from cur_memid (m ∷ memids) (way_type ∷ types) [] = none
  members_from cur_memid (m ∷ memids) (way_type ∷ types) (r ∷ roles) =
      let id = add_i64 cur_memid m in
      members_from id memids types roles >>= λ rest.
      some (record { id = id; role = get_or strtable r [] } ∷ rest)
  members_from cur_memid (m ∷ memids) (node_type ∷ types) roles =
      members_from (add_i64 cur_memid m) memids types (drop 1 roles)
  members_from cur_memid (m ∷ memids) (relation_type ∷ types) roles =
      members_from (add_i64 cur_memid m) memids types (drop 1 roles)

-- The sums of the deltas after `cur_ref`.
pub refs_from : ℤ → List ℤ → List ℤ
refs_from cur_ref [] = []
refs_from cur_ref (delta ∷ deltas) = let ref = add_i64 cur_ref delta in ref ∷ refs_from ref deltas

-- `out.emplace_back` for each item of a group.
pub each : {A : Type 0} → (A → Option OsmEntry) → List A → Option (List OsmEntry)
each f [] = some []
each f (x ∷ xs) = f x >>= λ entry. each f xs >>= λ rest. some (entry ∷ rest)

-- `x * 1e-9` as a double.
module _ (degrees : ℤ → Double) (b : PrimitiveBlock) where
  abbrev pub latitude : ℤ → Double
  latitude lat = degrees (add_i64 b.lat_offset (mul_i64 b.granularity lat))

  abbrev pub longitude : ℤ → Double
  longitude lon = degrees (add_i64 b.lon_offset (mul_i64 b.granularity lon))

  abbrev pub node_of : ℤ → ℤ → ℤ → Tags → OsmEntry
  node_of id lat lon tags = node_entry (record {
    id = id;
    name = name_of tags [];
    tags = tags;
    lon = longitude lon;
    lat = latitude lat;
  })

  -- The dense nodes after the sums `id`, `lat` and `lon`.
  pub dense_from : ℤ → ℤ → ℤ → List ℤ → List ℤ → List ℤ → List ℕ → Option (List OsmEntry)
  dense_from id lat lon [] lats lons kv = some []
  dense_from id lat lon (i ∷ ids) [] lons kv = none
  dense_from id lat lon (i ∷ ids) (y ∷ lats) [] kv = none
  dense_from id lat lon (i ∷ ids) (y ∷ lats) (x ∷ lons) kv =
      let cur_id = add_i64 id i in
      let cur_lat = add_i64 lat y in
      let cur_lon = add_i64 lon x in
      dense_tags b.strtable kv [] >>= λ read.
      dense_from cur_id cur_lat cur_lon ids lats lons read.1 >>= λ rest.
      some (node_of cur_id cur_lat cur_lon read.0 ∷ rest)

  pub dense_nodes : Option DenseNodes → Option (List OsmEntry)
  dense_nodes none = some []
  dense_nodes (some d) = dense_from (pos 0) (pos 0) (pos 0) d.ids d.lats d.lons d.keys_vals

  pub regular_node : PbfNode → Option OsmEntry
  regular_node n =
      get_tags b.strtable n.keys n.vals >>= λ tags. some (node_of n.id n.lat n.lon tags)

  pub way_of : PbfWay → Option OsmEntry
  way_of w = get_tags b.strtable w.keys w.vals >>= λ tags. some (
      way_entry (record {
        id = w.id;
        name = name_of tags [];
        tags = tags;
        node_refs = refs_from (pos 0) w.refs;
      }))

  pub relation_of : PbfRelation → Option OsmEntry
  relation_of r = get_tags b.strtable r.keys r.vals >>= λ tags.
      members_from b.strtable (pos 0) r.memids r.types r.roles_sid >>= λ members. some (
        relation_entry
          (record { id = r.id; name = name_of tags []; tags = tags; members = members }))

  pub parse_group : PrimitiveGroup → Option (List OsmEntry)
  parse_group g = dense_nodes g.dense >>= λ dense. each regular_node g.nodes >>= λ nodes.
      each way_of g.ways >>= λ ways.
      each relation_of g.relations >>= λ relations. some (dense ++ (nodes ++ (ways ++ relations)))

  pub parse_groups : List PrimitiveGroup → Option (List OsmEntry)
  parse_groups [] = some []
  parse_groups (g ∷ gs) =
      parse_group g >>= λ entries. parse_groups gs >>= λ rest. some (entries ++ rest)

pub parse_primitive_block : (ℤ → Double) → PrimitiveBlock → Option (List OsmEntry)
parse_primitive_block degrees b = parse_groups degrees b b.groups
