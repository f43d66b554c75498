-- ===== src/Buffers/Insert.antt =====
-- The inserts of `NavDB`, the finalizers and the destructor.
use gpsxdb.Prelude.{
  ℕ, true, false, ltb, leb, if◌then◌else◌, List, [], ◌∷◌, ◌++◌, length, Option, none, some,
}
use gpsxdb.Prelude.Int.{ℤ}
use gpsxdb.Bytes.{Double}
use gpsxdb.Wkb.Hex.{Text}
use gpsxdb.Nav.{Tags, Kind, is_empty, has_surviving_tag}
use gpsxdb.Buffers.{
  Record, TagRecord, Copied, Sink, Lane, Loading, Flushed, ok, ◌>>=◌, map_flushed, added_tags,
  flush_via_temp, flush_node_sink,
}

abbrev pub sink_of : Lane → List TagRecord → Sink
sink_of lane tag_buf = record {
  rows = lane.rows;
  tag_rows = lane.tag_rows;
  buf = lane.buf;
  tag_buf = tag_buf;
}

abbrev pub lane_of : Sink → Lane
lane_of s = record { rows = s.rows; tag_rows = s.tag_rows; buf = s.buf }

abbrev pub node_buffer_size : ℕ
node_buffer_size = 20000

abbrev pub push : Sink → Record → List TagRecord → Sink
push s r ts = record s { buf = s.buf ++ (r ∷ []); tag_buf = s.tag_buf ++ ts }

-- The arguments of an insert.
pub record Insert : Type 0 where
  pub kind : Kind
  pub id : ℤ
  pub name : Text
  pub at : Option (Double × Double)
  pub tags : Tags
  pub geog : Text

-- An empty geometry of a relation becomes a null.
abbrev pub relation_geog : Text → Option Text
relation_geog geog = if is_empty geog then none else some geog

module _ (copy : ℕ → Copied) (way_buffer_size : ℕ) where
  unfoldable pub flush_nodes : Loading → Flushed Loading
  flush_nodes s =
      map_flushed (λ (t, n). record s { nodes = lane_of t; tag_buf = t.tag_buf; attempts = n })
        (flush_node_sink copy (sink_of s.nodes s.tag_buf, s.attempts))

  unfoldable pub flush_ways : Loading → Flushed Loading
  flush_ways s =
      map_flushed (λ (t, n). record s { ways = t; attempts = n })
        (flush_via_temp copy (s.ways, s.attempts))

  unfoldable pub flush_areas : Loading → Flushed Loading
  flush_areas s =
      map_flushed (λ (t, n). record s { areas = t; attempts = n })
        (flush_via_temp copy (s.areas, s.attempts))

  unfoldable pub flush_roads : Loading → Flushed Loading
  flush_roads s =
      map_flushed (λ (t, n). record s { roads = t; attempts = n })
        (flush_via_temp copy (s.roads, s.attempts))

  unfoldable pub flush_relations : Loading → Flushed Loading
  flush_relations s =
      map_flushed (λ (t, n). record s { relations = lane_of t; tag_buf = t.tag_buf; attempts = n })
        (flush_via_temp copy (sink_of s.relations s.tag_buf, s.attempts))

  unfoldable pub insert_node :
      Loading → ℤ → Text → Option (Double × Double) → Tags → Text → Flushed Loading
  insert_node s id name at tags geog =
      if has_surviving_tag true tags
      then (let r : Record = record {
        id = id;
        row = record { name = name; geog = some geog; at = at };
      } in
          let t = push (sink_of s.nodes s.tag_buf) r (added_tags true id tags) in
          let s' : Loading = record s { nodes = lane_of t; tag_buf = t.tag_buf } in
          if leb node_buffer_size (length t.buf) then flush_nodes s' else ok s')
      else ok s

  unfoldable pub insert_way : Loading → ℤ → Text → Tags → Text → Flushed Loading
  insert_way s id name tags geog =
      if has_surviving_tag false tags
      then (let r : Record = record {
        id = id;
        row = record { name = name; geog = some geog; at = none };
      } in
          let s' : Loading = record s { ways = push s.ways r (added_tags false id tags) } in
          if leb way_buffer_size (length s'.ways.buf) then flush_ways s' else ok s')
      else ok s

  unfoldable pub insert_area : Loading → ℤ → Text → Tags → Text → Flushed Loading
  insert_area s id name tags geog =
      if has_surviving_tag false tags
      then (let r : Record = record {
        id = id;
        row = record { name = name; geog = some geog; at = none };
      } in
          let s' : Loading = record s { areas = push s.areas r (added_tags false id tags) } in
          if ltb way_buffer_size (length s'.areas.buf) then flush_areas s' else ok s')
      else ok s

  unfoldable pub insert_road : Loading → ℤ → Text → Tags → Text → Flushed Loading
  insert_road s id name tags geog =
      let r : Record = record {
        id = id;
        row = record { name = name; geog = some geog; at = none };
      } in
      let s' : Loading = record s { roads = push s.roads r (added_tags false id tags) } in
      if ltb way_buffer_size (length s'.roads.buf) then flush_roads s' else ok s'

  unfoldable pub insert_relation : Loading → ℤ → Text → Tags → Text → Flushed Loading
  insert_relation s id name tags geog =
      let r : Record = record {
        id = id;
        row = record { name = name; geog = relation_geog geog; at = none };
      } in
      let t = push (sink_of s.relations s.tag_buf) r (added_tags false id tags) in
      let s' : Loading = record s { relations = lane_of t; tag_buf = t.tag_buf } in
      if ltb way_buffer_size (length t.buf) then flush_relations s' else ok s'

  unfoldable pub insert : Loading → Insert → Flushed Loading
  insert s i = elim i.kind [
    | Kind.node ↦ insert_node s i.id i.name i.at i.tags i.geog
    | Kind.way ↦ insert_way s i.id i.name i.tags i.geog
    | Kind.area ↦ insert_area s i.id i.name i.tags i.geog
    | Kind.road ↦ insert_road s i.id i.name i.tags i.geog
    | Kind.relation ↦ insert_relation s i.id i.name i.tags i.geog
  ]

  unfoldable pub insert_all : List Insert → Loading → Flushed Loading
  insert_all [] s = ok s
  insert_all (i ∷ is) s = insert s i >>= insert_all is

  -- `~NavDB`; the finalizers call the same flushes.
  unfoldable pub finish : Loading → Flushed Loading
  finish s = flush_nodes s >>= flush_ways >>= flush_areas >>= flush_roads >>= flush_relations
