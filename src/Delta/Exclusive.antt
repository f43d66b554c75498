-- ===== src/Delta/Exclusive.antt =====
-- What the appliers keep true of the tables: a way is never also an area, and a road is a relation.
use gpsxdb.Prelude.{◌≡◌, Bool, true, false, ◌&&◌, Bool-cases, inl, inr, arith}
use gpsxdb.Prelude.Int.{ℤ, eqb_ℤ}
use gpsxdb.Wkb.Hex.{Text}
use gpsxdb.Nav.{
  NavDb, Kind, Tags, has_surviving_tag, upsert, delete_row, put, update_way, update_area,
  update_relation, update_road, delete_entity,
}
use gpsxdb.Nav.Consistent.{
  is_some, AreConsistent, call-AreConsistent, way_call, area_call, relation_call, road_call,
  delete_call, call,
}
use gpsxdb.Delta.{WayEntry, put_way, delete_way, delete_relation}

-- In each table rows and tags go together, no id is both a way and an area, and each road is a
-- relation.
pub record IsSound (db : NavDb) : Type 0 where
  pub consistent : AreConsistent db
  pub exclusive : (id : ℤ) → (is_some (db.ways.row id) && is_some (db.areas.row id)) ≡ false
  pub roads : (id : ℤ) → is_some (db.roads.row id) ≡ true → is_some (db.relations.row id) ≡ true

false_only {ℓ} : {A : Type ℓ} → false ≡ true → A
false_only e = ground (arith, e)

module _ (db : NavDb) (h : IsSound db) where
  pub put_way-IsSound :
      (w : WayEntry) (geom : Text) (closed : Bool) → IsSound (put_way db w geom closed)
  unfolding put_way call update_way update_area delete_entity upsert delete_row put
  put_way-IsSound w geom true = record {
    consistent =
        call-AreConsistent (area_call w.id w.name w.tags geom) _
          (call-AreConsistent (delete_call w.id Kind.way) db h.consistent);
    exclusive =
        λ j. elim (Bool-cases (eqb_ℤ j w.id)) [ inl e ↦ rw e | inr e ↦ rw e (h.exclusive j) ];
    roads = h.roads;
  }
  put_way-IsSound w geom false = record {
    consistent =
        call-AreConsistent (way_call w.id w.name w.tags geom) _
          (call-AreConsistent (delete_call w.id Kind.area) db h.consistent);
    exclusive = λ j. elim (Bool-cases (eqb_ℤ j w.id)) [
      | inl e ↦ rw e (ground arith)
      | inr e ↦ rw e (h.exclusive j)
    ];
    roads = h.roads;
  }

  pub delete_way-IsSound : (id : ℤ) → IsSound (delete_way db id)
  unfolding delete_way call delete_entity delete_row put
  delete_way-IsSound id = record {
    consistent =
        call-AreConsistent (delete_call id Kind.area) _
          (call-AreConsistent (delete_call id Kind.way) db h.consistent);
    exclusive = λ j. elim (Bool-cases (eqb_ℤ j id)) [ inl e ↦ rw e | inr e ↦ rw e (h.exclusive j) ];
    roads = h.roads;
  }

  -- The relation's own upsert, and the road's after it.
  pub relation_road-IsSound :
      (id : ℤ) (name : Text) (tags : Tags) (geom : Text)
      → IsSound (update_road (update_relation db id name tags geom) id name tags geom)
  unfolding call update_relation update_road upsert put
  relation_road-IsSound id name tags geom = record {
    consistent =
        call-AreConsistent (road_call id name tags geom) _
          (call-AreConsistent (relation_call id name tags geom) db h.consistent);
    exclusive = h.exclusive;
    roads = λ j. elim (Bool-cases (eqb_ℤ j id)) [
      | inl e ↦ rw e (λ r. elim (Bool-cases (has_surviving_tag false tags)) [
        | inl k ↦ rw k
        | inr k ↦ false_only (rw k at r)
      ])
      | inr e ↦ rw e (h.roads j)
    ];
  }

  pub relation_only-IsSound :
      (id : ℤ) (name : Text) (tags : Tags) (geom : Text)
      → IsSound (delete_entity (update_relation db id name tags geom) id Kind.road)
  unfolding call update_relation delete_entity upsert delete_row put
  relation_only-IsSound id name tags geom = record {
    consistent =
        call-AreConsistent (delete_call id Kind.road) _
          (call-AreConsistent (relation_call id name tags geom) db h.consistent);
    exclusive = h.exclusive;
    roads = λ j. elim (Bool-cases (eqb_ℤ j id)) [
      | inl e ↦ rw e (λ r. false_only r)
      | inr e ↦ rw e (h.roads j)
    ];
  }

  pub delete_relation-IsSound : (id : ℤ) → IsSound (delete_relation db id)
  unfolding delete_relation call delete_entity delete_row put
  delete_relation-IsSound id = record {
    consistent =
        call-AreConsistent (delete_call id Kind.road) _
          (call-AreConsistent (delete_call id Kind.relation) db h.consistent);
    exclusive = h.exclusive;
    roads = λ j. elim (Bool-cases (eqb_ℤ j id)) [
      | inl e ↦ rw e (λ r. false_only r)
      | inr e ↦ rw e (h.roads j)
    ];
  }
