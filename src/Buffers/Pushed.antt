-- ===== src/Buffers/Pushed.antt =====
-- One insert of a way, an area, a road or a relation.
use gpsxdb.Prelude.{
  ℕ, ◌≡◌, ◌≢◌, refl, sym, Bool, true, false, leb, ltb, ◌&&◌, if◌then◌else◌, List, [], ◌∷◌, ◌++◌,
  append-nil, length, none, some,
}
use gpsxdb.Nav.{Kind, has_surviving_tag}
use gpsxdb.Buffers.{Record, TagRecord, Copied, committed, Sink, Loading, Flushed, ok, added_tags}
use gpsxdb.Buffers.Insert.{
  Insert, push, sink_of, lane_of, relation_geog, flush_ways, flush_areas, flush_roads,
  flush_relations, insert_way, insert_area, insert_road, insert_relation, insert,
}
use gpsxdb.Buffers.Flush.{IsSink, push-IsSink}
use gpsxdb.Buffers.Expected.{same_kind, new_rows, new_tags}
use gpsxdb.Buffers.Steps.{
  IsLoading, same-IsLoading, same-IsSink, Ends, if-Ends, flush_ways-Ends, flush_areas-Ends,
  flush_roads-Ends, flush_relations-Ends,
}

-- With a record and its tags in the table of a kind.
abbrev rows_with : (Kind → List Record) → Kind → Record → Kind → List Record
rows_with rows j r k = rows k ++ (if same_kind k j then r ∷ [] else [])

abbrev tags_with : (Kind → List TagRecord) → Kind → List TagRecord → Kind → List TagRecord
tags_with tags j ts k = tags k ++ (if same_kind k j then ts else [])

still :
    (s : Sink) (rows : List Record) (tags : List TagRecord)
    → IsSink s rows tags
    → IsSink s (rows ++ []) (tags ++ [])
still s rows tags h =
    same-IsSink s rows (rows ++ []) tags (tags ++ []) (sym (append-nil rows))
      (sym (append-nil tags)) h

module _ (copy : ℕ → Copied) (all : (n : ℕ) → copy n ≡ committed) (size : ℕ) (s : Loading)
    (rows : Kind → List Record) (tags : Kind → List TagRecord) (h : IsLoading s rows tags) where
  module _ (r : Record) (ts : List TagRecord) (full : Bool) where
    push_way-Ends :
        let t : Loading = record s { ways = push s.ways r ts } in
        Ends
          (if full then flush_ways copy size t else ok t)
          (rows_with rows Kind.way r)
          (tags_with tags Kind.way ts)
    push_way-Ends =
        let t : Loading = record s { ways = push s.ways r ts } in
        let k : IsLoading t (rows_with rows Kind.way r) (tags_with tags Kind.way ts) = record {
          ways = push-IsSink s.ways r ts _ _ h.ways;
          areas = still s.areas _ _ h.areas;
          roads = still s.roads _ _ h.roads;
          relations = still (sink_of s.relations s.tag_buf) _ _ h.relations;
          no_nodes = h.no_nodes;
        } in
        if-Ends full (flush_ways copy size t) t _ _ (flush_ways-Ends copy all size t _ _ k) k

    push_area-Ends :
        let t : Loading = record s { areas = push s.areas r ts } in
        Ends
          (if full then flush_areas copy size t else ok t)
          (rows_with rows Kind.area r)
          (tags_with tags Kind.area ts)
    push_area-Ends =
        let t : Loading = record s { areas = push s.areas r ts } in
        let k : IsLoading t (rows_with rows Kind.area r) (tags_with tags Kind.area ts) = record {
          ways = still s.ways _ _ h.ways;
          areas = push-IsSink s.areas r ts _ _ h.areas;
          roads = still s.roads _ _ h.roads;
          relations = still (sink_of s.relations s.tag_buf) _ _ h.relations;
          no_nodes = h.no_nodes;
        } in
        if-Ends full (flush_areas copy size t) t _ _ (flush_areas-Ends copy all size t _ _ k) k

    push_road-Ends :
        let t : Loading = record s { roads = push s.roads r ts } in
        Ends
          (if full then flush_roads copy size t else ok t)
          (rows_with rows Kind.road r)
          (tags_with tags Kind.road ts)
    push_road-Ends =
        let t : Loading = record s { roads = push s.roads r ts } in
        let k : IsLoading t (rows_with rows Kind.road r) (tags_with tags Kind.road ts) = record {
          ways = still s.ways _ _ h.ways;
          areas = still s.areas _ _ h.areas;
          roads = push-IsSink s.roads r ts _ _ h.roads;
          relations = still (sink_of s.relations s.tag_buf) _ _ h.relations;
          no_nodes = h.no_nodes;
        } in
        if-Ends full (flush_roads copy size t) t _ _ (flush_roads-Ends copy all size t _ _ k) k

    push_relation-Ends :
        let u = push (sink_of s.relations s.tag_buf) r ts in
        let t : Loading = record s { relations = lane_of u; tag_buf = u.tag_buf } in
        Ends
          (if full then flush_relations copy size t else ok t)
          (rows_with rows Kind.relation r)
          (tags_with tags Kind.relation ts)
    push_relation-Ends =
        let u = push (sink_of s.relations s.tag_buf) r ts in
        let t : Loading = record s { relations = lane_of u; tag_buf = u.tag_buf } in
        let k : IsLoading t (rows_with rows Kind.relation r) (tags_with tags Kind.relation ts) =
          record {
            ways = still s.ways _ _ h.ways;
            areas = still s.areas _ _ h.areas;
            roads = still s.roads _ _ h.roads;
            relations = push-IsSink (sink_of s.relations s.tag_buf) r ts _ _ h.relations;
            no_nodes = h.no_nodes;
          } in
        if-Ends full (flush_relations copy size t) t _ _
          (flush_relations-Ends copy all size t _ _ k) k

    -- A test before the push.
    guard-Ends :
        (accepts : Bool) (j : Kind) (o : Flushed Loading)
        → Ends o (rows_with rows j r) (tags_with tags j ts)
        → Ends
            (if accepts then o else ok s)
            (λ k. rows k ++ (if accepts && same_kind k j then r ∷ [] else []))
            (λ k. tags k ++ (if accepts && same_kind k j then ts else []))
    unfolding Ends
    guard-Ends true j o k = k
    guard-Ends false j o k = (
      s,
      refl,
      same-IsLoading s _ _ _ _ (λ k. sym (append-nil (rows k))) (λ k. sym (append-nil (tags k))) h,
    )

  pub insert-Ends :
      (k : Kind) (i : Insert)
      → k ≢ Kind.node
      → Ends
          (insert copy size s (record i { kind = k }))
          (λ j. rows j ++ new_rows j (record i { kind = k }))
          (λ j. tags j ++ new_tags j (record i { kind = k }))
  unfolding insert insert_way insert_area insert_road insert_relation
  insert-Ends Kind.node i way_phase = absurd (way_phase refl)
  insert-Ends Kind.way i way_phase =
      let r : Record = record {
        id = i.id;
        row = record { name = i.name; geog = some i.geog; at = none };
      } in
      let ts = added_tags false i.id i.tags in
      guard-Ends r ts false (has_surviving_tag false i.tags) Kind.way _
        (push_way-Ends r ts (leb size (length (s.ways.buf ++ (r ∷ [])))))
  insert-Ends Kind.area i way_phase =
      let r : Record = record {
        id = i.id;
        row = record { name = i.name; geog = some i.geog; at = none };
      } in
      let ts = added_tags false i.id i.tags in
      guard-Ends r ts false (has_surviving_tag false i.tags) Kind.area _
        (push_area-Ends r ts (ltb size (length (s.areas.buf ++ (r ∷ [])))))
  insert-Ends Kind.road i way_phase =
      let r : Record = record {
        id = i.id;
        row = record { name = i.name; geog = some i.geog; at = none };
      } in
      push_road-Ends r (added_tags false i.id i.tags) (ltb size (length (s.roads.buf ++ (r ∷ []))))
  insert-Ends Kind.relation i way_phase =
      let r : Record = record {
        id = i.id;
        row = record { name = i.name; geog = relation_geog i.geog; at = none };
      } in
      push_relation-Ends r (added_tags false i.id i.tags)
        (ltb size (length (s.relations.buf ++ (r ∷ []))))
