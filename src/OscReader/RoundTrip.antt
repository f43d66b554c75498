-- ===== src/OscReader/RoundTrip.antt =====
-- A file with any changes is read as these changes.
use gpsxdb.Prelude.{
  ◌≡◌, refl, sym, ap, ◌∙◌, false, Bool-cases, inl, inr, List, [], ◌∷◌, ◌++◌, length, append_assoc,
  append-nil, Option, some, All, arith,
}
use gpsxdb.Prelude.Int.{ℤ}
use gpsxdb.Bytes.{Double}
use gpsxdb.Bytes.Signed.{IsI64}
use gpsxdb.Wkb.Hex.{Text}
use gpsxdb.Nav.{Tags, same_text, find_tag, store}
use gpsxdb.Nav.Keys.{has_key}
use gpsxdb.Delta.{NodeEntry, WayEntry, RelationEntry, ChangeType, create, modify, delete}
use gpsxdb.OscReader.{
  Event, start, stop, ParseState, ◌>>=◌, initial, start_tag, add_tag, add_ref, add_member,
  get_int64, get_double, start_node, start_way, start_relation, start_member, start_element,
  end_element, emit, handle, parse_from, parse, no_way, no_relation,
}
use gpsxdb.OscReader.States.{
  node_state, way_state, relation_state, idle, taken, taken_all, blocks_taken, out-blocks_taken,
  count-blocks_taken,
}
use gpsxdb.OscReader.Printed.{
  Element, node_element, way_element, relation_element, Block, file_changes, block_text,
  tags_events, refs_events, nd_attrs, member_attrs, element_events, elements_events, blocks_events,
  file_events, AreFresh, IsRef, IsNormal, IsWritten, AreWritten,
}
use gpsxdb.OscReader.Names.{
  osm_change_text, node_text, way_text, relation_text, nd_text, member_text,
}

store-AreFresh : (k v : Text) (m : Tags) → has_key k m ≡ false → store k v m ≡ m ++ ((k, v) ∷ [])
unfolding store
store-AreFresh k v [] h = refl
store-AreFresh k v ((j, u) ∷ m) h = elim (Bool-cases (same_text j k)) [
  | inl e ↦ ground (arith, h, e)
  | inr e ↦ rw e (ap (λ l. (j, u) ∷ l) (store-AreFresh k v m (rw e at h)))
]

module _ (stoll : Text → Option ℤ) (stod : Text → Option Double) (show_int : ℤ → Text)
    (show_double : Double → Text) (stoll-show : (z : ℤ) → IsI64 z → stoll (show_int z) ≡ some z)
    (stod-show : (d : Double) → IsNormal d → stod (show_double d) ≡ some d) where
  parse_tags :
      (f : Tags → ParseState)
      → ((m : Tags) (k v : Text) → add_tag (f m) k v ≡ f (store k v m))
      → (before tags : Tags) (es : List Event) → AreFresh before tags
      → parse_from stoll stod (f before) (tags_events show_int show_double tags es)
        ≡ parse_from stoll stod (f (before ++ tags)) es
  unfolding parse_from handle start_element start_tag end_element same_text find_tag
  parse_tags f step before [] es fresh =
      ap (λ m. parse_from stoll stod (f m) es) (sym (append-nil before))
  parse_tags f step before ((k, v) ∷ tags) es (new, fresh) =
      ap (λ t. parse_from stoll stod t (tags_events show_int show_double tags es))
        (step before k v ∙ ap f (store-AreFresh k v before new))
      ∙ parse_tags f step (before ++ ((k, v) ∷ [])) tags es fresh
      ∙ ap (λ m. parse_from stoll stod (f m) es) (append_assoc before ((k, v) ∷ []) tags)

  -- A list of references, in a state that a push of one changes as `push` says.
  parse_refs :
      (name : Text) (attrs : Text → List (Text × Text)) (f : List ℤ → ParseState)
      → ((m : List ℤ) (z : ℤ)
          → IsRef z
          → handle stoll stod (f m) (start name (attrs (show_int z))) ≡ some (f (m ++ (z ∷ []))))
      → ((m : List ℤ) → end_element (f m) name ≡ f m)
      → (before refs : List ℤ) (es : List Event) → All IsRef refs
      → parse_from stoll stod (f before) (refs_events show_int show_double name attrs refs es)
        ≡ parse_from stoll stod (f (before ++ refs)) es
  unfolding parse_from handle
  parse_refs name attrs f push stay before [] es h =
      ap (λ m. parse_from stoll stod (f m) es) (sym (append-nil before))
  parse_refs name attrs f push stay before (z ∷ refs) es (h, hs) =
      ap
        (λ o. o >>= λ t.
          parse_from stoll stod t (stop name ∷ refs_events show_int show_double name attrs refs es))
        (push before z h)
      ∙ ap (λ t. parse_from stoll stod t (refs_events show_int show_double name attrs refs es))
          (stay (before ++ (z ∷ [])))
      ∙ parse_refs name attrs f push stay (before ++ (z ∷ [])) refs es hs
      ∙ ap (λ m. parse_from stoll stod (f m) es) (append_assoc before (z ∷ []) refs)

  push_ref :
      (s : ParseState) (w : WayEntry) (m : List ℤ) (z : ℤ)
      → IsRef z
      → handle stoll stod
          (way_state s (record w { node_refs = m }))
          (start nd_text (nd_attrs (show_int z)))
        ≡ some (way_state s (record w { node_refs = m ++ (z ∷ []) }))
  unfolding handle start_element same_text find_tag get_int64 add_ref
  push_ref s w m z h = rw (stoll-show z h.0, h.1)

  push_member :
      (s : ParseState) (r : RelationEntry) (m : List ℤ) (z : ℤ)
      → IsRef z
      → handle stoll stod
          (relation_state s (record r { way_members = m }))
          (start member_text (member_attrs (show_int z)))
        ≡ some (relation_state s (record r { way_members = m ++ (z ∷ []) }))
  unfolding handle start_element start_member same_text find_tag get_int64 add_member
  push_member s r m z h = rw (stoll-show z h.0, h.1)

  parse_node :
      (s : ParseState) (n : NodeEntry) (es : List Event)
      → IsWritten (node_element n)
      → parse_from stoll stod (idle s) (element_events show_int show_double (node_element n) es)
        ≡ parse_from stoll stod (taken s (node_element n)) es
  unfolding parse_from handle start_element start_node end_element emit same_text find_tag get_int64
      get_double add_tag
  parse_node s n es (fresh, named, int, lat, lon) =
      rw (stoll-show n.id int, stod-show n.lat lat, stod-show n.lon lon)
        (parse_tags (λ m. node_state s (record n { name = []; tags = m })) (λ m k v. refl) [] n.tags
            (stop node_text ∷ es) fresh
          ∙ ap
              (λ name. parse_from stoll stod (taken s (node_element (record n { name = name }))) es)
              named)

  parse_way :
      (s : ParseState) (w : WayEntry) (es : List Event)
      → IsWritten (way_element w)
      → parse_from stoll stod (idle s) (element_events show_int show_double (way_element w) es)
        ≡ parse_from stoll stod (taken s (way_element w)) es
  unfolding parse_from handle start_element start_way end_element emit same_text find_tag get_int64
      add_tag
  parse_way s w es (fresh, named, refs, int) = rw (stoll-show w.id int) (
      parse_refs nd_text nd_attrs (λ m. way_state s (record no_way { id = w.id; node_refs = m }))
        (push_ref s (record no_way { id = w.id })) (λ m. refl) [] w.node_refs
        (tags_events show_int show_double w.tags (stop way_text ∷ es)) refs
      ∙ parse_tags (λ m. way_state s (record w { name = []; tags = m })) (λ m k v. refl) [] w.tags
          (stop way_text ∷ es) fresh
      ∙ ap (λ name. parse_from stoll stod (taken s (way_element (record w { name = name }))) es)
          named)

  parse_relation :
      (s : ParseState) (r : RelationEntry) (es : List Event)
      → IsWritten (relation_element r)
      → parse_from stoll stod (idle s) (element_events show_int show_double (relation_element r) es)
        ≡ parse_from stoll stod (taken s (relation_element r)) es
  unfolding parse_from handle start_element start_relation end_element emit same_text find_tag
      get_int64 add_tag
  parse_relation s r es (fresh, named, refs, int) = rw (stoll-show r.id int) (
      parse_refs member_text member_attrs
        (λ m. relation_state s (record no_relation { id = r.id; way_members = m }))
        (push_member s (record no_relation { id = r.id })) (λ m. refl) [] r.way_members
        (tags_events show_int show_double r.tags (stop relation_text ∷ es)) refs
      ∙ parse_tags (λ m. relation_state s (record r { name = []; tags = m })) (λ m k v. refl) []
          r.tags (stop relation_text ∷ es) fresh
      ∙ ap
          (λ name. parse_from stoll stod (taken s (relation_element (record r { name = name }))) es)
          named)

  parse_element :
      (s : ParseState) (e : Element) (es : List Event)
      → IsWritten e
      → parse_from stoll stod (idle s) (element_events show_int show_double e es)
        ≡ parse_from stoll stod (idle (taken s e)) es
  parse_element s (node_element n) es h = parse_node s n es h
  parse_element s (way_element w) es h = parse_way s w es h
  parse_element s (relation_element r) es h = parse_relation s r es h

  parse_elements :
      (s : ParseState) (elements : List Element) (es : List Event)
      → All IsWritten elements
      → parse_from stoll stod (idle s) (elements_events show_int show_double elements es)
        ≡ parse_from stoll stod (idle (taken_all s elements)) es
  parse_elements s [] es h = refl
  parse_elements s (e ∷ elements) es (h, hs) =
      parse_element s e (elements_events show_int show_double elements es) h
      ∙ parse_elements (taken s e) elements es hs

  start_block :
      (s : ParseState) (t : ChangeType) (es : List Event)
      → parse_from stoll stod (idle s) (start (block_text t) [] ∷ es)
        ≡ parse_from stoll stod (idle (record s { cur_change = t })) es
  unfolding parse_from handle start_element same_text
  start_block s create es = refl
  start_block s modify es = refl
  start_block s delete es = refl

  stop_block :
      (s : ParseState) (t : ChangeType) (es : List Event)
      → parse_from stoll stod (idle s) (stop (block_text t) ∷ es)
        ≡ parse_from stoll stod (idle s) es
  unfolding parse_from handle end_element same_text
  stop_block s create es = refl
  stop_block s modify es = refl
  stop_block s delete es = refl

  parse_blocks :
      (s : ParseState) (blocks : List Block) (es : List Event)
      → AreWritten blocks
      → parse_from stoll stod (idle s) (blocks_events show_int show_double blocks es)
        ≡ parse_from stoll stod (idle (blocks_taken s blocks)) es
  parse_blocks s [] es h = refl
  parse_blocks s ((t, elements) ∷ blocks) es (h, hs) =
      let rest = blocks_events show_int show_double blocks es in
      let s' = record s { cur_change = t } in
      start_block s t (elements_events show_int show_double elements (stop (block_text t) ∷ rest))
      ∙ parse_elements s' elements (stop (block_text t) ∷ rest) h
      ∙ stop_block (taken_all s' elements) t rest
      ∙ parse_blocks (taken_all s' elements) blocks es hs

  start_file :
      (s : ParseState) (es : List Event)
      → parse_from stoll stod (idle s) (start osm_change_text [] ∷ es)
        ≡ parse_from stoll stod (idle s) es
  unfolding parse_from handle start_element same_text
  start_file s es = refl

  stop_file :
      (s : ParseState) → parse_from stoll stod (idle s) (stop osm_change_text ∷ []) ≡ some (idle s)
  unfolding parse_from handle end_element same_text
  stop_file s = refl

  -- Of an OSC file with any blocks of elements, if an element has no key twice, the name that its
  -- tags say, integers of 64 bits, no reference 0 and coordinates that are zero or normal doubles,
  -- and if `std::stoll` and `std::stod` read such a number, as it is printed, as this number: `parse`
  -- ends without an exception, calls the callback once for each element, in their order, with the
  -- element and the type of its block, and returns the number of the elements.
  pub parse-file_events :
      (blocks : List Block)
      → AreWritten blocks
      → (t : ParseState) × (parse stoll stod (file_events show_int show_double blocks) ≡ some t)
        × (t.out ≡ file_changes blocks)
        × (t.count ≡ length (file_changes blocks))
  unfolding parse initial
  parse-file_events blocks h = (
    idle (blocks_taken initial blocks),
    start_file initial (blocks_events show_int show_double blocks (stop osm_change_text ∷ []))
        ∙ parse_blocks initial blocks (stop osm_change_text ∷ []) h
        ∙ stop_file (blocks_taken initial blocks),
    out-blocks_taken initial blocks,
    omega (arith, count-blocks_taken initial blocks),
  )
