-- ===== src/OsmReader/RoundTrip.antt =====
-- A block is read as the entries that it encodes.
use gpsxdb.Prelude.{
  ℕ, zero, suc, ◌<◌, ◌≡◌, refl, sym, ap, subst, List, [], ◌∷◌, ◌++◌, map, length, get_or, get_elem?,
  Option, some, All, arith,
}
use gpsxdb.Prelude.Int.{ℤ, pos}
use gpsxdb.Bytes.{Double}
use gpsxdb.Bytes.Signed.{IsI64}
use gpsxdb.Wkb.Hex.{Text}
use gpsxdb.Nav.{Tags, store, store_all}
use gpsxdb.OscReader.{name_of}
use gpsxdb.Import.Multipolygon.{Member}
use gpsxdb.OsmReader.{
  add_i64, MemberType, node_type, way_type, relation_type, PrimitiveBlock, OsmEntry, way_entry,
  relation_entry, set_tag, tags_from, get_tags, dense_tags, members_from, refs_from, node_of,
  dense_from, dense_nodes, regular_node, way_of, relation_of, each, parse_group, parse_groups,
  parse_primitive_block,
}
use gpsxdb.OsmReader.Encode.{
  Indices, RawNode, RawWay, RawMember, RawRelation, RawGroup, add_i64-sub_i64, sub_i64, deltas,
  node_id, node_lat, node_lon, member_id, member_kind, member_role, key_of, value_of, flat_tags,
  keys_vals_of, pbf_node, pbf_way, pbf_relation, pbf_group, IsIndexed, IsNode, IsWay, IsMember,
  IsRelation, IsGroup,
}

-- What is encoded, in terms of the strings.
abbrev pub texts : List Text → Indices → Tags
texts strtable [] = []
texts strtable ((k, v) ∷ tags) = (get_or strtable k [], get_or strtable v []) ∷ texts strtable tags

module _ (strtable : List Text) where
  -- The member before the others, if it is a way.
  abbrev with_member : MemberType → ℤ → ℕ → List Member → List Member
  with_member way_type id role rest = record { id = id; role = get_or strtable role [] } ∷ rest
  with_member node_type id role rest = rest
  with_member relation_type id role rest = rest

  abbrev pub way_members : List RawMember → List Member
  way_members [] = []
  way_members (m ∷ ms) = with_member m.kind m.id m.role (way_members ms)

get_elem?-get_or : (xs : List Text) (i : ℕ) → i < length xs → get_elem? xs i ≡ some (get_or xs i [])
get_elem?-get_or [] i h = absurd (omega arith)
get_elem?-get_or (x ∷ xs) zero h = refl
get_elem?-get_or (x ∷ xs) (suc i) h = get_elem?-get_or xs i (omega arith)

module _ (strtable : List Text) where
  set_tag-texts :
      (k v : ℕ) (tags : Tags)
      → k < length strtable
      → v < length strtable
      → set_tag strtable k v tags ≡ some (store (get_or strtable k []) (get_or strtable v []) tags)
  unfolding set_tag
  set_tag-texts k v tags h h' =
      rw (get_elem?-get_or strtable k h, get_elem?-get_or strtable v h') refl

  tags_from-texts :
      (ts : Indices) (tags : Tags)
      → All (IsIndexed (length strtable)) ts
      → tags_from strtable (map key_of ts) (map value_of ts) tags
        ≡ some (store_all (texts strtable ts) tags)
  unfolding tags_from store_all
  tags_from-texts [] tags h = refl
  tags_from-texts ((k, v) ∷ ts) tags ((_, hk, hv), hs) =
      rw (set_tag-texts k v tags hk hv) (tags_from-texts ts _ hs)

  dense_tags-texts :
      (ts : Indices) (kv : List ℕ) (tags : Tags)
      → All (IsIndexed (length strtable)) ts
      → dense_tags strtable (flat_tags ts kv) tags ≡ some (store_all (texts strtable ts) tags, kv)
  unfolding dense_tags store_all
  dense_tags-texts [] kv tags h = refl
  dense_tags-texts ((zero, v) ∷ ts) kv tags ((l, hk, hv), hs) = absurd (omega arith)
  dense_tags-texts ((suc k, v) ∷ ts) kv tags ((_, hk, hv), hs) =
      rw (set_tag-texts (suc k) v tags hk hv) (dense_tags-texts ts kv _ hs)

  members_from-way_members :
      (c : ℤ) (ms : List RawMember)
      → IsI64 c
      → All IsMember ms
      → members_from strtable c
          (deltas c (map member_id ms))
          (map member_kind ms)
          (map member_role ms)
        ≡ some (way_members strtable ms)
  unfolding members_from
  members_from-way_members c [] hc h = refl
  members_from-way_members c (m ∷ ms) hc (hm, hs) =
      let id : add_i64 c (sub_i64 m.id c) ≡ m.id = add_i64-sub_i64 c m.id hc hm in
      let ih : members_from strtable (add_i64 c (sub_i64 m.id c)) (deltas m.id (map member_id ms))
            (map member_kind ms) (map member_role ms)
          ≡ some (way_members strtable ms) =
        subst
          (λ k.
            members_from strtable k (deltas m.id (map member_id ms)) (map member_kind ms)
              (map member_role ms)
            ≡ some (way_members strtable ms))
          (sym id) (members_from-way_members m.id ms hm hs) in
      elim m.kind
        as (λ x.
          members_from strtable c (sub_i64 m.id c ∷ deltas m.id (map member_id ms))
            (x ∷ map member_kind ms) (m.role ∷ map member_role ms)
          ≡ some (with_member strtable x m.id m.role (way_members strtable ms))) [
            | way_type ↦ rw (ih, id) refl
            | node_type ↦ ih
            | relation_type ↦ ih
          ]

refs_from-deltas :
    (c : ℤ) (refs : List ℤ) → IsI64 c → All IsI64 refs → refs_from c (deltas c refs) ≡ refs
unfolding refs_from
refs_from-deltas c [] hc h = refl
refs_from-deltas c (x ∷ refs) hc (hx, hs) =
    rw (add_i64-sub_i64 c x hc hx) (ap (λ xs. x ∷ xs) (refs_from-deltas x refs hx hs))

-- The entries of a block of these groups.
module _ (degrees : ℤ → Double) (b : PrimitiveBlock) where
  abbrev pub tags_of : Indices → Tags
  tags_of tags = store_all (texts b.strtable tags) []

  abbrev pub entry_of_node : RawNode → OsmEntry
  entry_of_node n = node_of degrees b n.id n.lat n.lon (tags_of n.tags)

  abbrev pub entry_of_way : RawWay → OsmEntry
  entry_of_way w = way_entry (record {
    id = w.id;
    name = name_of (tags_of w.tags) [];
    tags = tags_of w.tags;
    node_refs = w.refs;
  })

  abbrev pub entry_of_relation : RawRelation → OsmEntry
  entry_of_relation r = relation_entry (record {
    id = r.id;
    name = name_of (tags_of r.tags) [];
    tags = tags_of r.tags;
    members = way_members b.strtable r.members;
  })

  abbrev pub entries_of : List RawGroup → List OsmEntry
  entries_of [] = []
  entries_of (g ∷ gs) =
      (map entry_of_node g.dense
        ++ (map entry_of_node g.nodes
            ++ (map entry_of_way g.ways ++ map entry_of_relation g.relations)))
      ++ entries_of gs

  dense_from-entries :
      (id lat lon : ℤ) (ns : List RawNode)
      → IsI64 id
      → IsI64 lat
      → IsI64 lon
      → All (IsNode (length b.strtable)) ns
      → dense_from degrees b id lat lon
          (deltas id (map node_id ns))
          (deltas lat (map node_lat ns))
          (deltas lon (map node_lon ns))
          (keys_vals_of ns)
        ≡ some (map entry_of_node ns)
  unfolding dense_from
  dense_from-entries id lat lon [] hi ha ho h = refl
  dense_from-entries id lat lon (n ∷ ns) hi ha ho ((ni, na, nl, nt), hs) =
      let i = add_i64-sub_i64 id n.id hi ni in
      let a = add_i64-sub_i64 lat n.lat ha na in
      let o = add_i64-sub_i64 lon n.lon ho nl in
      let t = dense_tags-texts b.strtable n.tags (keys_vals_of ns) [] nt in
      rw (i, a, o, t, dense_from-entries n.id n.lat n.lon ns ni na nl hs) refl

  each-entries :
      {R P : Type 0} (f : P → Option OsmEntry) (enc : R → P) (g : R → OsmEntry) (Ok : R → Type 0)
      (rs : List R)
      → ((r : R) → Ok r → f (enc r) ≡ some (g r))
      → All Ok rs
      → each f (map enc rs) ≡ some (map g rs)
  unfolding each
  each-entries f enc g Ok [] h ok = refl
  each-entries f enc g Ok (r ∷ rs) h (k, ks) = rw (h r k, each-entries f enc g Ok rs h ks) refl

  regular_node-entry :
      (n : RawNode)
      → IsNode (length b.strtable) n
      → regular_node degrees b (pbf_node n) ≡ some (entry_of_node n)
  unfolding regular_node get_tags
  regular_node-entry n (_, _, _, h) = rw (tags_from-texts b.strtable n.tags [] h) refl

  way_of-entry :
      (w : RawWay)
      → IsWay (length b.strtable) w
      → way_of degrees b (pbf_way w) ≡ some (entry_of_way w)
  unfolding way_of get_tags
  way_of-entry w (hr, h) =
      rw (tags_from-texts b.strtable w.tags [] h, refs_from-deltas (pos 0) w.refs (omega arith) hr)
        refl

  relation_of-entry :
      (r : RawRelation)
      → IsRelation (length b.strtable) r
      → relation_of degrees b (pbf_relation r) ≡ some (entry_of_relation r)
  unfolding relation_of get_tags
  relation_of-entry r (hm, h) =
      rw
        (
          tags_from-texts b.strtable r.tags [] h,
          members_from-way_members b.strtable (pos 0) r.members (omega arith) hm,
        )
        refl

  parse_groups-entries :
      (gs : List RawGroup)
      → All (IsGroup (length b.strtable)) gs
      → parse_groups degrees b (map pbf_group gs) ≡ some (entries_of gs)
  unfolding parse_groups parse_group dense_nodes
  parse_groups-entries [] h = refl
  parse_groups-entries (g ∷ gs) ((hd, hn, hw, hr), hs) =
      let n = length b.strtable in
      rw
        (
          dense_from-entries (pos 0) (pos 0) (pos 0) g.dense (omega arith) (omega arith)
              (omega arith) hd,
          each-entries (regular_node degrees b) pbf_node entry_of_node (IsNode n) g.nodes
              regular_node-entry hn,
          each-entries (way_of degrees b) pbf_way entry_of_way (IsWay n) g.ways way_of-entry hw,
          each-entries (relation_of degrees b) pbf_relation entry_of_relation (IsRelation n)
              g.relations relation_of-entry hr,
          parse_groups-entries gs hs,
        )
        refl

pub parse_primitive_block-entries :
    (degrees : ℤ → Double) (b : PrimitiveBlock) (gs : List RawGroup)
    → All (IsGroup (length b.strtable)) gs
    → parse_primitive_block degrees (record b { groups = map pbf_group gs })
      ≡ some (entries_of degrees b gs)
unfolding parse_primitive_block
parse_primitive_block-entries degrees b gs h =
    parse_groups-entries degrees (record b { groups = map pbf_group gs }) gs h
