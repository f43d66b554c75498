-- ===== src/OscReader.antt =====
-- src/OSCReader.cpp: the handlers of XML elements that turn an OSC file into changes. What expat
-- reports is the list of events; `std::stoll` and `std::stod` are parameters, which give nothing
-- where they throw. The callback is called in the order of `out`. The roles of members are left out,
-- since the appliers do not read them.
pub mod Names
pub mod Printed
pub mod States
pub mod RoundTrip
mod Tests
use gpsxdb.Prelude.{
  ℕ, ◌+◌, Bool, true, false, ◌&&◌, ◌||◌, if◌then◌else◌, List, [], ◌∷◌, ◌++◌, Option, none, some,
}
use gpsxdb.Prelude.Int.{ℤ, pos, eqb_ℤ}
use gpsxdb.Bytes.{Double}
use gpsxdb.Wkb.Hex.{Text}
use gpsxdb.Nav.{Tags, same_text, find_tag, store}
use gpsxdb.Delta.{
  NodeEntry, WayEntry, RelationEntry, ChangeType, create, modify, delete, OscChange, node_change,
  way_change, relation_change,
}
use gpsxdb.OscReader.Names.{
  create_text, modify_text, delete_text, node_text, way_text, relation_text, tag_text, nd_text,
  member_text, id_text, lat_text, lon_text, k_text, v_text, ref_text, type_text, name_text,
}

infixl 5 ◌>>=◌
abbrev pub ◌>>=◌ {ℓ κ} : {A : Type ℓ} {B : Type κ} → Option A → (A → Option B) → Option B
some a >>= f = f a
none >>= f = none

-- Attributes in their order.
pub data Event : Type 0 where
  start : Text → List (Text × Text) → Event
  stop : Text → Event

pub record ParseState : Type 0 where
  pub count : ℕ
  pub cur_change : ChangeType
  pub in_node : Bool
  pub in_way : Bool
  pub in_relation : Bool
  pub node : NodeEntry
  pub way : WayEntry
  pub relation : RelationEntry
  pub out : List OscChange

abbrev pub no_node : NodeEntry
no_node = record { id = pos 0; name = []; tags = []; lon = 0; lat = 0 }

abbrev pub no_way : WayEntry
no_way = record { id = pos 0; name = []; tags = []; node_refs = [] }

abbrev pub no_relation : RelationEntry
no_relation = record { id = pos 0; name = []; tags = []; way_members = [] }

pub initial : ParseState
initial = record {
  count = 0;
  cur_change = create;
  in_node = false;
  in_way = false;
  in_relation = false;
  node = no_node;
  way = no_way;
  relation = no_relation;
  out = [];
}

-- `getAttr`: the first attribute with the name.
abbrev pub get_attr : List (Text × Text) → Text → Option Text
get_attr attrs key = find_tag key attrs

-- The `name` of an element with these tags.
pub name_of : Tags → Text → Text
name_of tags name = elim (find_tag name_text tags) [ none ↦ name | some v ↦ v ]

-- The branch of "tag".
pub add_tag : ParseState → Text → Text → ParseState
add_tag s k v =
    let node = if s.in_node then record s.node { tags = store k v s.node.tags } else s.node in
    let way = if s.in_way then record s.way { tags = store k v s.way.tags } else s.way in
    let relation =
      if s.in_relation
      then record s.relation { tags = store k v s.relation.tags }
      else s.relation in
    record s { node = node; way = way; relation = relation }

pub start_tag : ParseState → List (Text × Text) → ParseState
start_tag s attrs = elim (get_attr attrs k_text) [
  | none ↦ s
  | some k ↦ elim (get_attr attrs v_text) [ none ↦ s | some v ↦ add_tag s k v ]
]

pub add_ref : ParseState → ℤ → ParseState
add_ref s ref =
    if eqb_ℤ ref (pos 0)
    then s
    else record s { way = record s.way { node_refs = s.way.node_refs ++ (ref ∷ []) } }

pub add_member : ParseState → ℤ → ParseState
add_member s ref = if eqb_ℤ ref (pos 0) then s else record s {
  relation = record s.relation { way_members = s.relation.way_members ++ (ref ∷ []) };
}

pub emit : ParseState → OscChange → ParseState
emit s c = record s { out = s.out ++ (c ∷ []); count = s.count + 1 }

pub end_element : ParseState → Text → ParseState
end_element s name =
    if same_text name node_text && s.in_node
    then (let n = record s.node { name = name_of s.node.tags s.node.name } in
        emit (record s { in_node = false; node = n }) (node_change s.cur_change n))
    else if same_text name way_text && s.in_way
    then (let w = record s.way { name = name_of s.way.tags s.way.name } in
        emit (record s { in_way = false; way = w }) (way_change s.cur_change w))
    else if same_text name relation_text && s.in_relation
    then (let r = record s.relation { name = name_of s.relation.tags s.relation.name } in
        emit (record s { in_relation = false; relation = r }) (relation_change s.cur_change r))
    else s

module _ (stoll : Text → Option ℤ) (stod : Text → Option Double) where
  pub get_int64 : List (Text × Text) → Text → Option ℤ
  get_int64 attrs key = elim (get_attr attrs key) [ none ↦ some (pos 0) | some v ↦ stoll v ]

  -- The pattern of 0.0 is 0.
  pub get_double : List (Text × Text) → Text → Option Double
  get_double attrs key = elim (get_attr attrs key) [ none ↦ some 0 | some v ↦ stod v ]

  pub start_node : ParseState → List (Text × Text) → Option ParseState
  start_node s attrs = get_int64 attrs id_text >>= λ id. get_double attrs lat_text >>= λ lat.
      get_double attrs lon_text >>= λ lon. some (record s {
        in_node = true;
        node = record { id = id; name = []; tags = []; lon = lon; lat = lat };
      })

  pub start_way : ParseState → List (Text × Text) → Option ParseState
  start_way s attrs = get_int64 attrs id_text >>= λ id.
      some (record s { in_way = true; way = record no_way { id = id } })

  pub start_relation : ParseState → List (Text × Text) → Option ParseState
  start_relation s attrs = get_int64 attrs id_text >>= λ id.
      some (record s { in_relation = true; relation = record no_relation { id = id } })

  -- Only members that are ways are kept.
  pub start_member : ParseState → List (Text × Text) → Option ParseState
  start_member s attrs = elim (get_attr attrs type_text) [
    | none ↦ some s
    | some type ↦
        if same_text type way_text
        then get_int64 attrs ref_text >>= (λ ref. some (add_member s ref))
        else some s
  ]

  pub start_element : ParseState → Text → List (Text × Text) → Option ParseState
  start_element s name attrs =
      if same_text name create_text
      then some (record s { cur_change = create })
      else if same_text name modify_text
      then some (record s { cur_change = modify })
      else if same_text name delete_text
      then some (record s { cur_change = delete })
      else if same_text name node_text
      then start_node s attrs
      else if same_text name way_text
      then start_way s attrs
      else if same_text name relation_text
      then start_relation s attrs
      else if same_text name tag_text
      then some (start_tag s attrs)
      else if same_text name nd_text && s.in_way
      then get_int64 attrs ref_text >>= (λ ref. some (add_ref s ref))
      else if same_text name member_text && s.in_relation
      then start_member s attrs
      else some s

  pub handle : ParseState → Event → Option ParseState
  handle s (start name attrs) = start_element s name attrs
  handle s (stop name) = some (end_element s name)

  -- `parse`, from the first event to the last; an exception of a handler ends it.
  pub parse_from : ParseState → List Event → Option ParseState
  parse_from s [] = some s
  parse_from s (e ∷ es) = handle s e >>= λ t. parse_from t es

  pub parse : List Event → Option ParseState
  parse es = parse_from initial es
