-- ===== src/OsmReader/Encode.antt =====
-- The entries of a block as the PBF format encodes them: the differences of successive ids,
-- coordinates and references, and the tags of dense nodes with a 0 after each node's.
use gpsxdb.Prelude.{ℕ, ◌+◌, ◌-◌, ◌%◌, ◌^◌, ◌<◌, ◌≡◌, List, [], ◌∷◌, map, some, All, arith}
use gpsxdb.Prelude.Int.{ℤ, pos}
use gpsxdb.Bytes.Signed.{to_size, to_i64, IsI64, to_i64-to_size, to_size-lt}
use gpsxdb.OsmReader.{add_i64, DenseNodes, PbfNode, PbfWay, PbfRelation, MemberType, PrimitiveGroup}

-- Tags as pairs of indices into the table of strings.
abbrev pub Indices : Type 0
Indices = List (ℕ × ℕ)

pub record RawNode : Type 0 where
  pub id : ℤ
  pub lat : ℤ
  pub lon : ℤ
  pub tags : Indices

pub record RawWay : Type 0 where
  pub id : ℤ
  pub tags : Indices
  pub refs : List ℤ

pub record RawMember : Type 0 where
  pub kind : MemberType
  pub id : ℤ
  pub role : ℕ

pub record RawRelation : Type 0 where
  pub id : ℤ
  pub tags : Indices
  pub members : List RawMember

pub record RawGroup : Type 0 where
  pub dense : List RawNode
  pub nodes : List RawNode
  pub ways : List RawWay
  pub relations : List RawRelation

pub sub_i64 : ℤ → ℤ → ℤ
sub_i64 a b = to_i64 ((to_size a + (2 ^ 64 - to_size b)) % 2 ^ 64)

to_size-to_i64 : (u : ℕ) → u < 2 ^ 64 → to_size (to_i64 u) ≡ u
unfolding to_size to_i64
to_size-to_i64 u h = ground arith

pub add_i64-sub_i64 : (c x : ℤ) → IsI64 c → IsI64 x → add_i64 c (sub_i64 x c) ≡ x
unfolding add_i64 sub_i64
add_i64-sub_i64 c x hc hx =
    let u = (to_size x + (2 ^ 64 - to_size c)) % 2 ^ 64 in
    let back : to_size (to_i64 u) ≡ u = to_size-to_i64 u (omega arith) in
    let lc = to_size-lt c hc in
    let lx = to_size-lt x hx in
    let sum : (to_size c + u) % 2 ^ 64 ≡ to_size x = omega arith in
    rw (back, sum) (to_i64-to_size x hx)

abbrev pub deltas : ℤ → List ℤ → List ℤ
deltas c [] = []
deltas c (x ∷ xs) = sub_i64 x c ∷ deltas x xs

abbrev pub node_id : RawNode → ℤ
node_id n = n.id

abbrev pub node_lat : RawNode → ℤ
node_lat n = n.lat

abbrev pub node_lon : RawNode → ℤ
node_lon n = n.lon

abbrev pub member_id : RawMember → ℤ
member_id m = m.id

abbrev pub member_kind : RawMember → MemberType
member_kind m = m.kind

abbrev pub member_role : RawMember → ℕ
member_role m = m.role

abbrev pub key_of : ℕ × ℕ → ℕ
key_of t = t.0

abbrev pub value_of : ℕ × ℕ → ℕ
value_of t = t.1

-- The keys and values of a dense node before the rest.
abbrev pub flat_tags : Indices → List ℕ → List ℕ
flat_tags [] kv = 0 ∷ kv
flat_tags ((k, v) ∷ tags) kv = k ∷ v ∷ flat_tags tags kv

abbrev pub keys_vals_of : List RawNode → List ℕ
keys_vals_of [] = []
keys_vals_of (n ∷ ns) = flat_tags n.tags (keys_vals_of ns)

abbrev pub dense_of : List RawNode → DenseNodes
dense_of ns = record {
  ids = deltas (pos 0) (map node_id ns);
  lats = deltas (pos 0) (map node_lat ns);
  lons = deltas (pos 0) (map node_lon ns);
  keys_vals = keys_vals_of ns;
}

abbrev pub pbf_node : RawNode → PbfNode
pbf_node n = record {
  id = n.id;
  lat = n.lat;
  lon = n.lon;
  keys = map key_of n.tags;
  vals = map value_of n.tags;
}

abbrev pub pbf_way : RawWay → PbfWay
pbf_way w = record {
  id = w.id;
  keys = map key_of w.tags;
  vals = map value_of w.tags;
  refs = deltas (pos 0) w.refs;
}

abbrev pub pbf_relation : RawRelation → PbfRelation
pbf_relation r = record {
  id = r.id;
  keys = map key_of r.tags;
  vals = map value_of r.tags;
  memids = deltas (pos 0) (map member_id r.members);
  types = map member_kind r.members;
  roles_sid = map member_role r.members;
}

abbrev pub pbf_group : RawGroup → PrimitiveGroup
pbf_group g = record {
  dense = some (dense_of g.dense);
  nodes = map pbf_node g.nodes;
  ways = map pbf_way g.ways;
  relations = map pbf_relation g.relations;
}

-- A pair within a table of `n` strings; the key 0 would end the tags of a dense node.
abbrev pub IsIndexed : ℕ → ℕ × ℕ → Type 0
IsIndexed n (k, v) = (0 < k) × (k < n) × (v < n)

abbrev pub IsNode : ℕ → RawNode → Type 0
IsNode n r = IsI64 r.id × IsI64 r.lat × IsI64 r.lon × All (IsIndexed n) r.tags

abbrev pub IsWay : ℕ → RawWay → Type 0
IsWay n w = All IsI64 w.refs × All (IsIndexed n) w.tags

abbrev pub IsMember : RawMember → Type 0
IsMember m = IsI64 m.id

abbrev pub IsRelation : ℕ → RawRelation → Type 0
IsRelation n r = All IsMember r.members × All (IsIndexed n) r.tags

abbrev pub IsGroup : ℕ → RawGroup → Type 0
IsGroup n g =
    All (IsNode n) g.dense
    × All (IsNode n) g.nodes
    × All (IsWay n) g.ways
    × All (IsRelation n) g.relations
