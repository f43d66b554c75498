-- ===== src/Regional/Tables.antt =====
-- Tables whose every row lies in an installed region, and what the calls of the database do to them.
use gpsxdb.Prelude.{
  ◌≡◌, refl, Bool, true, false, Bool-cases, inl, inr, arith, List, [], ◌∷◌, Option, none, some,
}
use gpsxdb.Prelude.Int.{ℤ, eqb_ℤ}
use gpsxdb.Bytes.{Double}
use gpsxdb.Wkb.Geometry.{Point}
use gpsxdb.Wkb.Hex.{Text}
use gpsxdb.Wkb.Encode.{point_wkb}
use gpsxdb.Region.{Boost, Entry}
use gpsxdb.Nav.{
  NavDb, Row, Table, Tags, Kind, has_surviving_tag, is_empty, upsert, delete_row, put, update_node,
  update_way, update_area, update_relation, update_road, delete_entity,
}
use gpsxdb.Delta.{NodeEntry, WayEntry, RelationEntry, put_way, delete_way, delete_relation}
use gpsxdb.Regional.{node_in_region, in_region}

abbrev pub AllOf : (Row → Type 0) → Option Row → Type 0
AllOf P none = Unit
AllOf P (some r) = P r

-- Each row of the table satisfies `P`.
abbrev pub Holds : (Row → Type 0) → Table → Type 0
Holds P t = (id : ℤ) → AllOf P (t.row id)

module _ (P : Row → Type 0) (t : Table) (id : ℤ) (h : Holds P t) where
  upsert-Holds :
      (is_node : Bool) (r : Row) (tags : Tags) → P r → Holds P (upsert is_node t id r tags)
  unfolding upsert put
  upsert-Holds is_node r tags p j = elim (Bool-cases (eqb_ℤ j id)) [
    | inl e ↦
        rw e
          (elim (Bool-cases (has_surviving_tag is_node tags)) [ inl k ↦ rw k p | inr k ↦ rw k tt ])
    | inr e ↦ rw e (h j)
  ]

  delete_row-Holds : Holds P (delete_row t id)
  unfolding delete_row put
  delete_row-Holds j = elim (Bool-cases (eqb_ℤ j id)) [ inl e ↦ rw e tt | inr e ↦ rw e (h j) ]

module _ (to_mercator : Double → Double → Point) (double_eq : Double → Double → Bool) (srid : ℤ)
    (boost : Boost) (regions : List Entry) where
  abbrev pub NodeIn : Row → Type 0
  NodeIn r =
      (p : Point) × (r.at ≡ some p)
      × (node_in_region to_mercator double_eq srid boost regions p ≡ true)

  abbrev pub GeomIn : Row → Type 0
  GeomIn r =
      (g : Text) × (r.geog ≡ some g) × (in_region to_mercator double_eq srid boost regions g ≡ true)

  -- Every row of `nodes` has its coordinates in a region, every other row its geometry.
  pub record IsRegional (db : NavDb) : Type 0 where
    pub nodes : Holds NodeIn db.nodes
    pub ways : Holds GeomIn db.ways
    pub areas : Holds GeomIn db.areas
    pub roads : Holds GeomIn db.roads
    pub relations : Holds GeomIn db.relations

  -- A geometry in a region is no empty text.
  in_region-nonempty :
      (g : Text) → in_region to_mercator double_eq srid boost regions g ≡ true → is_empty g ≡ false
  unfolding in_region
  in_region-nonempty [] h = ground (arith, h)
  in_region-nonempty (c ∷ g) h = refl

  module _ (db : NavDb) (h : IsRegional db) where
    pub put_way-IsRegional :
        (w : WayEntry) (geom : Text) (closed : Bool)
        → in_region to_mercator double_eq srid boost regions geom ≡ true
        → IsRegional (put_way db w geom closed)
    unfolding put_way update_way update_area delete_entity
    put_way-IsRegional w geom true i = record {
      nodes = h.nodes;
      ways = delete_row-Holds GeomIn db.ways w.id h.ways;
      areas = upsert-Holds GeomIn db.areas w.id h.areas false _ w.tags (geom, refl, i);
      roads = h.roads;
      relations = h.relations;
    }
    put_way-IsRegional w geom false i = record {
      nodes = h.nodes;
      ways = upsert-Holds GeomIn db.ways w.id h.ways false _ w.tags (geom, refl, i);
      areas = delete_row-Holds GeomIn db.areas w.id h.areas;
      roads = h.roads;
      relations = h.relations;
    }

    pub delete_way-IsRegional : (id : ℤ) → IsRegional (delete_way db id)
    unfolding delete_way delete_entity
    delete_way-IsRegional id = record {
      nodes = h.nodes;
      ways = delete_row-Holds GeomIn db.ways id h.ways;
      areas = delete_row-Holds GeomIn db.areas id h.areas;
      roads = h.roads;
      relations = h.relations;
    }

    pub delete_relation-IsRegional : (id : ℤ) → IsRegional (delete_relation db id)
    unfolding delete_relation delete_entity
    delete_relation-IsRegional id = record {
      nodes = h.nodes;
      ways = h.ways;
      areas = h.areas;
      roads = delete_row-Holds GeomIn db.roads id h.roads;
      relations = delete_row-Holds GeomIn db.relations id h.relations;
    }

    pub delete_node-IsRegional : (id : ℤ) → IsRegional (delete_entity db id Kind.node)
    unfolding delete_entity
    delete_node-IsRegional id = record {
      nodes = delete_row-Holds NodeIn db.nodes id h.nodes;
      ways = h.ways;
      areas = h.areas;
      roads = h.roads;
      relations = h.relations;
    }

    pub update_node-IsRegional :
        (n : NodeEntry) (p : Point)
        → node_in_region to_mercator double_eq srid boost regions p ≡ true
        → IsRegional (update_node db n.id n.name p.0 p.1 n.tags (point_wkb srid n.lon n.lat))
    unfolding update_node
    update_node-IsRegional n p i = record {
      nodes = upsert-Holds NodeIn db.nodes n.id h.nodes true _ n.tags (p, refl, i);
      ways = h.ways;
      areas = h.areas;
      roads = h.roads;
      relations = h.relations;
    }

    module _ (r : RelationEntry) (geom : Text)
        (i : in_region to_mercator double_eq srid boost regions geom ≡ true) where
      pub relation-IsRegional : IsRegional (update_relation db r.id r.name r.tags geom)
      unfolding update_relation
      relation-IsRegional = record {
        nodes = h.nodes;
        ways = h.ways;
        areas = h.areas;
        roads = h.roads;
        relations =
            upsert-Holds GeomIn db.relations r.id h.relations false _ r.tags
              (geom, rw (in_region-nonempty geom i), i);
      }

  pub road-IsRegional :
      (db : NavDb) (r : RelationEntry) (geom : Text)
      → IsRegional db
      → in_region to_mercator double_eq srid boost regions geom ≡ true
      → IsRegional (update_road db r.id r.name r.tags geom)
  unfolding update_road
  road-IsRegional db r geom h i = record {
    nodes = h.nodes;
    ways = h.ways;
    areas = h.areas;
    roads = upsert-Holds GeomIn db.roads r.id h.roads false _ r.tags (geom, refl, i);
    relations = h.relations;
  }

  pub delete_road-IsRegional :
      (db : NavDb) (id : ℤ) → IsRegional db → IsRegional (delete_entity db id Kind.road)
  unfolding delete_entity
  delete_road-IsRegional db id h = record {
    nodes = h.nodes;
    ways = h.ways;
    areas = h.areas;
    roads = delete_row-Holds GeomIn db.roads id h.roads;
    relations = h.relations;
  }
