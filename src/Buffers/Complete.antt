-- ===== src/Buffers/Complete.antt =====
-- The inserts of a thread of ways and relations, from the first to the destructor.
use gpsxdb.Prelude.{
  ℕ, ◌≡◌, ◌≢◌, refl, sym, subst, List, [], ◌∷◌, ◌++◌, append-nil, append_assoc, All,
}
use gpsxdb.Nav.{Kind}
use gpsxdb.Buffers.{
  Record, TagRecord, Copied, committed, Loading, ok, ◌>>=◌, empty_lane, empty_loading,
  flush_node_sink,
}
use gpsxdb.Buffers.Insert.{
  Insert, sink_of, lane_of, flush_nodes, flush_ways, flush_areas, flush_roads, flush_relations,
  insert_all, finish,
}
use gpsxdb.Buffers.Flush.{flushed, flushed-IsSink, flush_via_temp-IsSink}
use gpsxdb.Buffers.Expected.{new_rows, new_tags, rows_of, tags_of}
use gpsxdb.Buffers.Steps.{IsLoading, same-IsLoading, Ends}
use gpsxdb.Buffers.Pushed.{insert-Ends}

-- All rows and tags in their tables, and the buffers empty.
abbrev pub loaded : (Kind → List Record) → (Kind → List TagRecord) → ℕ → Loading
loaded rows tags n = record {
  ways = flushed (rows Kind.way) (tags Kind.way);
  areas = flushed (rows Kind.area) (tags Kind.area);
  roads = flushed (rows Kind.road) (tags Kind.road);
  nodes = empty_lane;
  relations = lane_of (flushed (rows Kind.relation) (tags Kind.relation));
  tag_buf = [];
  attempts = n;
}

module _ (copy : ℕ → Copied) (all : (n : ℕ) → copy n ≡ committed) (size : ℕ) where
  flush_nodes_none : (s : Loading) → s.nodes ≡ empty_lane → flush_nodes copy size s ≡ ok s
  unfolding flush_nodes flush_node_sink
  flush_nodes_none s e =
      subst (λ l. flush_nodes copy size (record s { nodes = l }) ≡ ok (record s { nodes = l }))
        (sym e) refl

  finish-loaded :
      (s : Loading) (rows : Kind → List Record) (tags : Kind → List TagRecord)
      → IsLoading s rows tags
      → (n : ℕ) × (finish copy size s ≡ ok (loaded rows tags n))
  unfolding finish flush_ways flush_areas flush_roads flush_relations
  finish-loaded s rows tags h =
      let (m₁, e₁) = flush_via_temp-IsSink copy all s.ways s.attempts _ _ h.ways in
      let (m₂, e₂) = flush_via_temp-IsSink copy all s.areas m₁ _ _ h.areas in
      let (m₃, e₃) = flush_via_temp-IsSink copy all s.roads m₂ _ _ h.roads in
      let (m₄, e₄) =
        flush_via_temp-IsSink copy all (sink_of s.relations s.tag_buf) m₃ _ _ h.relations in
      (m₄, rw (flush_nodes_none s h.no_nodes, e₁, e₂, e₃, e₄, h.no_nodes))

  insert_all-Ends :
      (is : List Insert) (s : Loading) (rows : Kind → List Record) (tags : Kind → List TagRecord)
      → IsLoading s rows tags
      → All (λ i. i.kind ≢ Kind.node) is
      → Ends (insert_all copy size is s) (λ k. rows k ++ rows_of k is) (λ k. tags k ++ tags_of k is)
  unfolding insert_all Ends
  insert_all-Ends [] s rows tags h way_phase = (
    s,
    refl,
    same-IsLoading s _ _ _ _ (λ k. sym (append-nil (rows k))) (λ k. sym (append-nil (tags k))) h,
  )
  insert_all-Ends (i ∷ is) s rows tags h (not_node, way_phase) =
      let (t, e, k) = insert-Ends copy all size s rows tags h i.kind i not_node in
      let (u, f, l) =
        insert_all-Ends is t (λ j. rows j ++ new_rows j i) (λ j. tags j ++ new_tags j i) k
          way_phase in
      (
        u,
        rw (e, f),
        same-IsLoading u _ _ _ _ (λ j. append_assoc (rows j) (new_rows j i) (rows_of j is))
            (λ j. append_assoc (tags j) (new_tags j i) (tags_of j is)) l,
      )

  -- When every COPY commits: whatever the buffers' size, after any inserts of ways, areas, roads and
  -- relations and the destructor's flushes no exception has been thrown, the buffers are empty, and
  -- each table holds exactly the rows of the inserts that the filter accepts, in their order, and
  -- each tag table their tags: no row is lost or written twice, and no tag goes to the table of
  -- another kind.
  pub insert_all-loaded :
      (is : List Insert)
      → All (λ i. i.kind ≢ Kind.node) is
      → (n : ℕ) × ((insert_all copy size is empty_loading >>= finish copy size)
          ≡ ok (loaded (λ k. rows_of k is) (λ k. tags_of k is) n))
  unfolding Ends
  insert_all-loaded is way_phase =
      let (s, e, h) =
        insert_all-Ends is empty_loading (λ k. []) (λ k. [])
          (record {
            ways = flushed-IsSink [] [];
            areas = flushed-IsSink [] [];
            roads = flushed-IsSink [] [];
            relations = flushed-IsSink [] [];
            no_nodes = refl;
          })
          way_phase in
      let (n, f) = finish-loaded s (λ k. rows_of k is) (λ k. tags_of k is) h in (n, rw (e, f))
