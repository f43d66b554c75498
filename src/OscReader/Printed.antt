-- ===== src/OscReader/Printed.antt =====
-- The events of an OSC file with blocks of elements, as planet.openstreetmap.org writes them.
use gpsxdb.Prelude.{◌<◌, ◌≤◌, ◌/◌, ◌%◌, ◌^◌, ◌⊎◌, ◌≡◌, false, List, [], ◌∷◌, ◌++◌, All}
use gpsxdb.Prelude.Int.{ℤ, pos, eqb_ℤ}
use gpsxdb.Bytes.{Double}
use gpsxdb.Bytes.Signed.{IsI64}
use gpsxdb.Wkb.Hex.{Text}
use gpsxdb.Nav.{Tags}
use gpsxdb.Nav.Keys.{has_key}
use gpsxdb.Delta.{
  NodeEntry, WayEntry, RelationEntry, ChangeType, create, modify, delete, OscChange, node_change,
  way_change, relation_change,
}
use gpsxdb.OscReader.{Event, start, stop, name_of}
use gpsxdb.OscReader.Names.{
  osm_change_text, create_text, modify_text, delete_text, node_text, way_text, relation_text,
  tag_text, nd_text, member_text, id_text, lat_text, lon_text, k_text, v_text, ref_text, type_text,
}

pub data Element : Type 0 where
  node_element : NodeEntry → Element
  way_element : WayEntry → Element
  relation_element : RelationEntry → Element

abbrev pub Block : Type 0
Block = ChangeType × List Element

abbrev pub change_of : ChangeType → Element → OscChange
change_of t (node_element n) = node_change t n
change_of t (way_element w) = way_change t w
change_of t (relation_element r) = relation_change t r

abbrev pub changes_of : ChangeType → List Element → List OscChange
changes_of t [] = []
changes_of t (e ∷ elements) = change_of t e ∷ changes_of t elements

abbrev pub file_changes : List Block → List OscChange
file_changes [] = []
file_changes ((t, elements) ∷ blocks) = changes_of t elements ++ file_changes blocks

abbrev pub block_text : ChangeType → Text
block_text create = create_text
block_text modify = modify_text
block_text delete = delete_text

abbrev pub nd_attrs : Text → List (Text × Text)
nd_attrs ref = (ref_text, ref) ∷ []

abbrev pub member_attrs : Text → List (Text × Text)
member_attrs ref = (type_text, way_text) ∷ (ref_text, ref) ∷ []

module _ (show_int : ℤ → Text) (show_double : Double → Text) where
  abbrev pub tags_events : Tags → List Event → List Event
  tags_events [] es = es
  tags_events ((k, v) ∷ tags) es =
      start tag_text ((k_text, k) ∷ (v_text, v) ∷ []) ∷ stop tag_text ∷ tags_events tags es

  -- A list of references, each in an element with this name.
  abbrev pub refs_events : Text → (Text → List (Text × Text)) → List ℤ → List Event → List Event
  refs_events name attrs [] es = es
  refs_events name attrs (ref ∷ refs) es =
      start name (attrs (show_int ref)) ∷ stop name ∷ refs_events name attrs refs es

  -- The element, and the events after it.
  abbrev pub element_events : Element → List Event → List Event
  element_events (node_element n) es =
      start node_text (
        (id_text, show_int n.id)
        ∷ (lat_text, show_double n.lat)
        ∷ (lon_text, show_double n.lon)
        ∷ [])
      ∷ tags_events n.tags (stop node_text ∷ es)
  element_events (way_element w) es =
      start way_text ((id_text, show_int w.id) ∷ [])
      ∷ refs_events nd_text nd_attrs w.node_refs (tags_events w.tags (stop way_text ∷ es))
  element_events (relation_element r) es =
      start relation_text ((id_text, show_int r.id) ∷ [])
      ∷ refs_events member_text member_attrs r.way_members
          (tags_events r.tags (stop relation_text ∷ es))

  abbrev pub elements_events : List Element → List Event → List Event
  elements_events [] es = es
  elements_events (e ∷ elements) es = element_events e (elements_events elements es)

  abbrev pub blocks_events : List Block → List Event → List Event
  blocks_events [] es = es
  blocks_events ((t, elements) ∷ blocks) es =
      start (block_text t) []
      ∷ elements_events elements (stop (block_text t) ∷ blocks_events blocks es)

  abbrev pub file_events : List Block → List Event
  file_events blocks = start osm_change_text [] ∷ blocks_events blocks (stop osm_change_text ∷ [])

-- No key stands twice among `before` and the tags.
abbrev pub AreFresh : Tags → Tags → Type 0
AreFresh before [] = Unit
AreFresh before ((k, v) ∷ tags) =
    (has_key k before ≡ false) × AreFresh (before ++ ((k, v) ∷ [])) tags

abbrev pub IsRef : ℤ → Type 0
IsRef ref = IsI64 ref × (eqb_ℤ ref (pos 0) ≡ false)

-- The pattern of a double that is zero, or finite and not subnormal: what `std::stod` reads without
-- an exception.
abbrev pub IsNormal : Double → Type 0
IsNormal d =
    (d < 2 ^ 64) × ((d % 2 ^ 63 ≡ 0) ⊎ ((1 ≤ d / 2 ^ 52 % 2 ^ 11) × (d / 2 ^ 52 % 2 ^ 11 ≤ 2046)))

-- Distinct keys, the name among the tags if there is one, numbers of the types that the code reads,
-- and no reference that is 0.
abbrev pub IsWritten : Element → Type 0
IsWritten (node_element n) =
    AreFresh [] n.tags × (name_of n.tags [] ≡ n.name) × IsI64 n.id × IsNormal n.lat × IsNormal n.lon
IsWritten (way_element w) =
    AreFresh [] w.tags × (name_of w.tags [] ≡ w.name) × All IsRef w.node_refs × IsI64 w.id
IsWritten (relation_element r) =
    AreFresh [] r.tags × (name_of r.tags [] ≡ r.name) × All IsRef r.way_members × IsI64 r.id

abbrev pub AreWritten : List Block → Type 0
AreWritten [] = Unit
AreWritten ((t, elements) ∷ blocks) = All IsWritten elements × AreWritten blocks
