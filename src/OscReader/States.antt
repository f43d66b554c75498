-- ===== src/OscReader/States.antt =====
-- The states of the reader inside of an element, and after elements.
use gpsxdb.Prelude.{
  length-append, ◌+◌, ◌≡◌, refl, sym, ◌∙◌, true, false, List, [], ◌∷◌, ◌++◌, length, append_assoc,
  append-nil, arith,
}
use gpsxdb.Delta.{NodeEntry, WayEntry, RelationEntry, node_change, way_change, relation_change}
use gpsxdb.OscReader.{ParseState}
use gpsxdb.OscReader.Printed.{
  Element, node_element, way_element, relation_element, Block, change_of, changes_of, file_changes,
}

abbrev pub node_state : ParseState → NodeEntry → ParseState
node_state s n = record s { in_node = true; in_way = false; in_relation = false; node = n }

abbrev pub way_state : ParseState → WayEntry → ParseState
way_state s w = record s { in_node = false; in_way = true; in_relation = false; way = w }

abbrev pub relation_state : ParseState → RelationEntry → ParseState
relation_state s r = record s { in_node = false; in_way = false; in_relation = true; relation = r }

abbrev pub idle : ParseState → ParseState
idle s = record s { in_node = false; in_way = false; in_relation = false }

-- The state after an element.
abbrev pub taken : ParseState → Element → ParseState
taken s (node_element n) = record s {
  in_node = false;
  in_way = false;
  in_relation = false;
  node = n;
  out = s.out ++ (node_change s.cur_change n ∷ []);
  count = s.count + 1;
}
taken s (way_element w) = record s {
  in_node = false;
  in_way = false;
  in_relation = false;
  way = w;
  out = s.out ++ (way_change s.cur_change w ∷ []);
  count = s.count + 1;
}
taken s (relation_element r) = record s {
  in_node = false;
  in_way = false;
  in_relation = false;
  relation = r;
  out = s.out ++ (relation_change s.cur_change r ∷ []);
  count = s.count + 1;
}

abbrev pub taken_all : ParseState → List Element → ParseState
taken_all s [] = s
taken_all s (e ∷ elements) = taken_all (taken s e) elements

abbrev pub blocks_taken : ParseState → List Block → ParseState
blocks_taken s [] = s
blocks_taken s ((t, elements) ∷ blocks) =
    blocks_taken (taken_all (record s { cur_change = t }) elements) blocks

taken-extends :
    (s : ParseState) (e : Element)
    → ((taken s e).out ≡ s.out ++ (change_of s.cur_change e ∷ []))
      × ((taken s e).count ≡ s.count + 1)
      × ((taken s e).cur_change ≡ s.cur_change)
taken-extends s (node_element n) = (refl, refl, refl)
taken-extends s (way_element w) = (refl, refl, refl)
taken-extends s (relation_element r) = (refl, refl, refl)

out-taken_all :
    (s : ParseState) (elements : List Element)
    → (taken_all s elements).out ≡ s.out ++ changes_of s.cur_change elements
out-taken_all s [] = sym (append-nil s.out)
out-taken_all s (e ∷ elements) =
    let (out, count, cur) = taken-extends s e in
    out-taken_all (taken s e) elements
    ∙ rw (out, cur)
        (append_assoc s.out (change_of s.cur_change e ∷ []) (changes_of s.cur_change elements))

count-taken_all :
    (s : ParseState) (elements : List Element)
    → (taken_all s elements).count ≡ s.count + length (changes_of s.cur_change elements)
count-taken_all s [] = omega arith
count-taken_all s (e ∷ elements) =
    let (out, count, cur) = taken-extends s e in
    let rest = count-taken_all (taken s e) elements in rest ∙ rw (count, cur) omega arith

pub out-blocks_taken :
    (s : ParseState) (blocks : List Block)
    → (blocks_taken s blocks).out ≡ s.out ++ file_changes blocks
out-blocks_taken s [] = sym (append-nil s.out)
out-blocks_taken s ((t, elements) ∷ blocks) =
    out-blocks_taken (taken_all (record s { cur_change = t }) elements) blocks
    ∙ rw (out-taken_all (record s { cur_change = t }) elements)
        (append_assoc s.out (changes_of t elements) (file_changes blocks))

pub count-blocks_taken :
    (s : ParseState) (blocks : List Block)
    → (blocks_taken s blocks).count ≡ s.count + length (file_changes blocks)
count-blocks_taken s [] = omega arith
count-blocks_taken s ((t, elements) ∷ blocks) =
    let s' = record s { cur_change = t } in
    count-blocks_taken (taken_all s' elements) blocks
    ∙ rw (count-taken_all s' elements, length-append (changes_of t elements) (file_changes blocks))
        omega arith
