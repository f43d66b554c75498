-- ===== src/Nav/Consistent.antt =====
-- An entity has a row exactly when it has rows of tags, whatever calls come: `diffTags` leaves the
-- keys that pass the filter of `hasSurvivingTag`.
use gpsxdb.Prelude.{
  ◌≡◌, refl, sym, ◌∙◌, Bool, true, false, not, ◌&&◌, ◌||◌, if◌then◌else◌, Bool-cases, inl, inr,
  List, [], ◌∷◌, Option, none, some, Option-cases, arith,
}
use gpsxdb.Prelude.Int.{ℤ, eqb_ℤ}
use gpsxdb.Bytes.{Double}
use gpsxdb.Wkb.Hex.{Text}
use gpsxdb.Nav.Sanitize.{sanitize_tag}
use gpsxdb.Nav.{
  Tags, is_dropped, has_elevation_tag, survives_among, has_surviving_tag, find_tag, erase,
  write_tag, diff_loop, diff_tags, store_all, same_text, Row, Table, NavDb, Kind, upsert,
  delete_row, put, update_node, update_way, update_area, update_relation, update_road,
  delete_entity, set_value,
}
use gpsxdb.Nav.Keys.{
  has_key, has_key-erase, has_key-erase_all, has_key-append, has_key-set_value, has_key-store_all,
  find_tag-has_key, same_text-eq, same_text_refl,
}

-- The tags that pass the filter, as they are stored.
pub kept_among : Bool → Bool → Tags → Tags
kept_among is_node high [] = []
kept_among is_node high ((k, v) ∷ tags) =
    if is_dropped is_node high k v
    then kept_among is_node high tags
    else (sanitize_tag k, sanitize_tag v) ∷ kept_among is_node high tags

abbrev pub kept : Bool → Tags → Tags
kept is_node tags = kept_among is_node (is_node && has_elevation_tag tags) tags

abbrev Covers : Tags → Tags → Type 0
Covers rows existing = (k : Text) → has_key k existing ≡ true → has_key k rows ≡ true

has_key-write_tag :
    (k ck cv : Text) (rows existing : Tags)
    → Covers rows existing
    → has_key k (write_tag ck cv rows existing) ≡ (same_text ck k || has_key k rows)
unfolding write_tag
has_key-write_tag k ck cv rows existing c = elim (Option-cases (find_tag ck existing)) [
  | inl e ↦ rw (e, write_tag) (has_key-append k rows ((ck, cv) ∷ []) ∙ ground arith)
  | inr (v, e) ↦
      let same : has_key k (if same_text v cv then rows else set_value ck cv rows)
          ≡ has_key k rows =
        ground (arith, has_key-set_value k ck cv rows) in
      let there : has_key ck rows ≡ true = c ck (find_tag-has_key ck v existing e) in
      rw (e, write_tag)
        (same ∙ elim (Bool-cases (same_text ck k)) [
          | inl h ↦ rw (h, ← same_text-eq ck k h) there
          | inr h ↦ rw h
        ])
]

Covers-write_tag :
    (ck cv : Text) (rows existing : Tags)
    → Covers rows existing
    → Covers (write_tag ck cv rows existing) (erase ck existing)
Covers-write_tag ck cv rows existing c k h =
    rw (has_key-write_tag k ck cv rows existing c) (ground (arith, rw has_key-erase at h, c k))

-- What the loop leaves: the kept keys come to the rows, and go from `existing`.
diff_loop-has_key :
    (k : Text) (is_node high : Bool) (tags rows existing : Tags)
    → Covers rows existing
    → let out = diff_loop is_node high tags rows existing in
      let new = has_key k (kept_among is_node high tags) in
      (has_key k out.0 ≡ (new || has_key k rows))
      × (has_key k out.1 ≡ (not new && has_key k existing))
unfolding diff_loop kept_among
diff_loop-has_key k is_node high [] rows existing c = (refl, refl)
diff_loop-has_key k is_node high ((j, v) ∷ tags) rows existing c =
    elim (Bool-cases (is_dropped is_node high j v)) [
      | inl e ↦ rw (e, diff_loop) (diff_loop-has_key k is_node high tags rows existing c)
      | inr e ↦
          let ck = sanitize_tag j in
          let cv = sanitize_tag v in
          let (a, b) =
            diff_loop-has_key k is_node high tags (write_tag ck cv rows existing)
              (erase ck existing) (Covers-write_tag ck cv rows existing c) in
          rw (e, diff_loop)
            (
              a ∙ rw (has_key-write_tag k ck cv rows existing c) (ground arith),
              b ∙ rw has_key-erase (ground arith),
            )
    ]

-- Whatever rows of tags an entity had, `diffTags` leaves exactly the keys of the tags that pass the
-- filter, in their sanitized form.
pub diff_tags-has_key :
    (k : Text) (is_node : Bool) (rows tags : Tags)
    → has_key k (diff_tags is_node rows tags) ≡ has_key k (kept is_node tags)
unfolding diff_tags
diff_tags-has_key k is_node rows tags =
    let high = is_node && has_elevation_tag tags in
    let start : (j : Text) → has_key j (store_all rows []) ≡ (has_key j rows || false) =
      (λ j. has_key-store_all j rows []) in
    let out = diff_loop is_node high tags rows (store_all rows []) in
    let (a, b) =
      diff_loop-has_key k is_node high tags rows (store_all rows [])
        (λ j h. ground (arith, start j)) in
    has_key-erase_all k out.1 out.0 ∙ rw (a, b, start k) (ground arith)

abbrev pub any_key : Tags → Bool
any_key [] = false
any_key (t ∷ tags) = true

-- The filter of `hasSurvivingTag` and the one of `diffTags` agree.
survives_among-kept_among :
    (is_node high : Bool) (tags : Tags)
    → survives_among is_node high tags ≡ any_key (kept_among is_node high tags)
unfolding survives_among kept_among
survives_among-kept_among is_node high [] = refl
survives_among-kept_among is_node high ((k, v) ∷ tags) =
    ground (arith, survives_among-kept_among is_node high tags)

any_key-of : (xs ys : Tags) → ((k : Text) → has_key k xs ≡ has_key k ys) → any_key xs ≡ any_key ys
any_key-of [] [] h = refl
any_key-of [] ((k, v) ∷ ys) h = ground (arith, same_text_refl k, h k)
any_key-of ((k, v) ∷ xs) [] h = ground (arith, same_text_refl k, h k)
any_key-of (x ∷ xs) (y ∷ ys) h = refl

-- Whether there is a row at an id, and whether there are tags.
abbrev pub is_some : Option Row → Bool
is_some none = false
is_some (some r) = true

abbrev pub IsConsistent : Table → Type 0
IsConsistent t = (id : ℤ) → is_some (t.row id) ≡ any_key (t.tags id)

diff_tags-has_surviving_tag :
    (is_node : Bool) (rows tags : Tags)
    → has_surviving_tag is_node tags ≡ any_key (diff_tags is_node rows tags)
unfolding has_surviving_tag
diff_tags-has_surviving_tag is_node rows tags =
    survives_among-kept_among is_node (is_node && has_elevation_tag tags) tags
    ∙ sym (
        any_key-of (diff_tags is_node rows tags) (kept is_node tags)
          (λ k. diff_tags-has_key k is_node rows tags))

upsert-IsConsistent :
    (is_node : Bool) (t : Table) (id : ℤ) (r : Row) (tags : Tags)
    → IsConsistent t
    → IsConsistent (upsert is_node t id r tags)
unfolding upsert put
upsert-IsConsistent is_node t id r tags c j = elim (Bool-cases (eqb_ℤ j id)) [
  | inl e ↦ rw e (elim (Bool-cases (has_surviving_tag is_node tags)) [
    | inl h ↦ rw h (sym h ∙ diff_tags-has_surviving_tag is_node (t.tags id) tags)
    | inr h ↦ rw h (sym h ∙ diff_tags-has_surviving_tag is_node (t.tags id) tags)
  ])
  | inr e ↦ rw e (c j)
]

delete_row-IsConsistent : (t : Table) (id : ℤ) → IsConsistent t → IsConsistent (delete_row t id)
unfolding delete_row put
delete_row-IsConsistent t id c j = elim (Bool-cases (eqb_ℤ j id)) [
  | inl e ↦ rw e
  | inr e ↦ rw e (c j)
]

-- The calls that the delta appliers make.
pub data Call : Type 0 where
  node_call : ℤ → Text → Double → Double → Tags → Text → Call
  way_call area_call relation_call road_call : ℤ → Text → Tags → Text → Call
  delete_call : ℤ → Kind → Call

unfoldable pub call : Call → NavDb → NavDb
call (node_call id name x y tags geog) db = update_node db id name x y tags geog
call (way_call id name tags geog) db = update_way db id name tags geog
call (area_call id name tags geog) db = update_area db id name tags geog
call (relation_call id name tags geog) db = update_relation db id name tags geog
call (road_call id name tags geog) db = update_road db id name tags geog
call (delete_call id kind) db = delete_entity db id kind

pub call_all : List Call → NavDb → NavDb
call_all [] db = db
call_all (c ∷ cs) db = call_all cs (call c db)

abbrev pub AreConsistent : NavDb → Type 0
AreConsistent db =
    IsConsistent db.nodes
    × IsConsistent db.ways
    × IsConsistent db.areas
    × IsConsistent db.roads
    × IsConsistent db.relations

pub call-AreConsistent : (c : Call) (db : NavDb) → AreConsistent db → AreConsistent (call c db)
unfolding call update_node update_way update_area update_relation update_road delete_entity
call-AreConsistent (node_call id name x y tags geog) db (n, w, a, o, r) =
    (upsert-IsConsistent true db.nodes id _ tags n, w, a, o, r)
call-AreConsistent (way_call id name tags geog) db (n, w, a, o, r) =
    (n, upsert-IsConsistent false db.ways id _ tags w, a, o, r)
call-AreConsistent (area_call id name tags geog) db (n, w, a, o, r) =
    (n, w, upsert-IsConsistent false db.areas id _ tags a, o, r)
call-AreConsistent (relation_call id name tags geog) db (n, w, a, o, r) =
    (n, w, a, o, upsert-IsConsistent false db.relations id _ tags r)
call-AreConsistent (road_call id name tags geog) db (n, w, a, o, r) =
    (n, w, a, upsert-IsConsistent false db.roads id _ tags o, r)
call-AreConsistent (delete_call id Kind.node) db (n, w, a, o, r) =
    (delete_row-IsConsistent db.nodes id n, w, a, o, r)
call-AreConsistent (delete_call id Kind.way) db (n, w, a, o, r) =
    (n, delete_row-IsConsistent db.ways id w, a, o, r)
call-AreConsistent (delete_call id Kind.area) db (n, w, a, o, r) =
    (n, w, delete_row-IsConsistent db.areas id a, o, r)
call-AreConsistent (delete_call id Kind.road) db (n, w, a, o, r) =
    (n, w, a, delete_row-IsConsistent db.roads id o, r)
call-AreConsistent (delete_call id Kind.relation) db (n, w, a, o, r) =
    (n, w, a, o, delete_row-IsConsistent db.relations id r)

-- Through any calls of the update interface, in each of the five tables an entity has a row exactly
-- when it has rows of tags, if this held before: no call leaves tags without their row.
pub call_all-AreConsistent :
    (cs : List Call) (db : NavDb) → AreConsistent db → AreConsistent (call_all cs db)
unfolding call_all
call_all-AreConsistent [] db c = c
call_all-AreConsistent (x ∷ cs) db c =
    call_all-AreConsistent cs (call x db) (call-AreConsistent x db c)
