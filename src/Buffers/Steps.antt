-- ===== src/Buffers/Steps.antt =====
-- What the flushes keep, of ways, areas, roads and relations.
use gpsxdb.Prelude.{ℕ, ◌≡◌, refl, ◌∙◌, Bool, true, false, if◌then◌else◌, List, []}
use gpsxdb.Nav.{Kind}
use gpsxdb.Buffers.{Record, TagRecord, Copied, committed, Sink, Loading, Flushed, ok, empty_lane}
use gpsxdb.Buffers.Insert.{sink_of, lane_of, flush_ways, flush_areas, flush_roads, flush_relations}
use gpsxdb.Buffers.Flush.{IsSink, flushed, flushed-IsSink, flush_via_temp-IsSink}

-- The four sinks hold these rows and tags, and there are no nodes.
pub record IsLoading (s : Loading) (rows : Kind → List Record) (tags : Kind → List TagRecord)
    : Type 0 where
  pub ways : IsSink s.ways (rows Kind.way) (tags Kind.way)
  pub areas : IsSink s.areas (rows Kind.area) (tags Kind.area)
  pub roads : IsSink s.roads (rows Kind.road) (tags Kind.road)
  pub relations : IsSink (sink_of s.relations s.tag_buf) (rows Kind.relation) (tags Kind.relation)
  pub no_nodes : s.nodes ≡ empty_lane

pub same-IsSink :
    (s : Sink) (rows rows' : List Record) (tags tags' : List TagRecord)
    → rows ≡ rows'
    → tags ≡ tags'
    → IsSink s rows tags
    → IsSink s rows' tags'
same-IsSink s rows rows' tags tags' e f h = record {
  all_rows = h.all_rows ∙ e;
  all_tags = h.all_tags ∙ f;
  follow = h.follow;
}

pub same-IsLoading :
    (s : Loading) (rows rows' : Kind → List Record) (tags tags' : Kind → List TagRecord)
    → ((k : Kind) → rows k ≡ rows' k)
    → ((k : Kind) → tags k ≡ tags' k)
    → IsLoading s rows tags
    → IsLoading s rows' tags'
same-IsLoading s rows rows' tags tags' e f h = record {
  ways = same-IsSink s.ways _ _ _ _ (e Kind.way) (f Kind.way) h.ways;
  areas = same-IsSink s.areas _ _ _ _ (e Kind.area) (f Kind.area) h.areas;
  roads = same-IsSink s.roads _ _ _ _ (e Kind.road) (f Kind.road) h.roads;
  relations =
      same-IsSink (sink_of s.relations s.tag_buf) _ _ _ _ (e Kind.relation) (f Kind.relation)
        h.relations;
  no_nodes = h.no_nodes;
}

-- A step that ends and keeps this.
unfoldable pub Ends : Flushed Loading → (Kind → List Record) → (Kind → List TagRecord) → Type 0
Ends o rows tags = (t : Loading) × (o ≡ ok t) × IsLoading t rows tags

pub if-Ends :
    (b : Bool) (o : Flushed Loading) (s : Loading) (rows : Kind → List Record)
    (tags : Kind → List TagRecord)
    → Ends o rows tags
    → IsLoading s rows tags
    → Ends (if b then o else ok s) rows tags
unfolding Ends
if-Ends true o s rows tags h k = h
if-Ends false o s rows tags h k = (s, refl, k)

module _ (copy : ℕ → Copied) (all : (n : ℕ) → copy n ≡ committed) (size : ℕ) where
  module _ (s : Loading) (rows : Kind → List Record) (tags : Kind → List TagRecord)
      (h : IsLoading s rows tags) where
    pub flush_ways-Ends : Ends (flush_ways copy size s) rows tags
    unfolding Ends flush_ways
    flush_ways-Ends =
        let (m, e) = flush_via_temp-IsSink copy all s.ways s.attempts _ _ h.ways in
        (
          record s { ways = flushed (rows Kind.way) (tags Kind.way); attempts = m },
          rw e,
          record {
            ways = flushed-IsSink _ _;
            areas = h.areas;
            roads = h.roads;
            relations = h.relations;
            no_nodes = h.no_nodes;
          },
        )

    pub flush_areas-Ends : Ends (flush_areas copy size s) rows tags
    unfolding Ends flush_areas
    flush_areas-Ends =
        let (m, e) = flush_via_temp-IsSink copy all s.areas s.attempts _ _ h.areas in
        (
          record s { areas = flushed (rows Kind.area) (tags Kind.area); attempts = m },
          rw e,
          record {
            ways = h.ways;
            areas = flushed-IsSink _ _;
            roads = h.roads;
            relations = h.relations;
            no_nodes = h.no_nodes;
          },
        )

    pub flush_roads-Ends : Ends (flush_roads copy size s) rows tags
    unfolding Ends flush_roads
    flush_roads-Ends =
        let (m, e) = flush_via_temp-IsSink copy all s.roads s.attempts _ _ h.roads in
        (
          record s { roads = flushed (rows Kind.road) (tags Kind.road); attempts = m },
          rw e,
          record {
            ways = h.ways;
            areas = h.areas;
            roads = flushed-IsSink _ _;
            relations = h.relations;
            no_nodes = h.no_nodes;
          },
        )

    pub flush_relations-Ends : Ends (flush_relations copy size s) rows tags
    unfolding Ends flush_relations
    flush_relations-Ends =
        let (m, e) =
          flush_via_temp-IsSink copy all (sink_of s.relations s.tag_buf) s.attempts _ _
            h.relations in
        (
          record s {
            relations = lane_of (flushed (rows Kind.relation) (tags Kind.relation));
            tag_buf = [];
            attempts = m;
          },
          rw e,
          record {
            ways = h.ways;
            areas = h.areas;
            roads = h.roads;
            relations = flushed-IsSink _ _;
            no_nodes = h.no_nodes;
          },
        )
