-- ===== src/Nav/Tests.antt =====
-- The theorems of the update interface at concrete inputs.
use gpsxdb.Prelude.{◌≡◌, ◌≤◌, refl, arith, [], ◌∷◌, List, none, true}
use gpsxdb.Prelude.Int.{pos}
use gpsxdb.Wkb.Hex.{Text}
use gpsxdb.Nav.Sanitize.{lead_length, is_continuation, sanitize_tag}
use gpsxdb.Nav.Utf8.{Utf8Form, done, more, lead, sanitize_tag_self}
use gpsxdb.Nav.{Tags, Table, NavDb, Kind, diff_tags}
use gpsxdb.Nav.Names.{highway_text, road_text, building_text}
use gpsxdb.Nav.Keys.{has_key}
use gpsxdb.Nav.Consistent.{
  Call, way_call, delete_call, call_all, AreConsistent, call_all-AreConsistent, kept,
  diff_tags-has_key,
}
use gpsxdb.Nav.Utf8.{sanitize_tag-Utf8Form}

abbrev no_rows : Table
no_rows = record { row = λ _. none; tags = λ _. [] }

abbrev no_db : NavDb
no_db = record {
  nodes = no_rows;
  ways = no_rows;
  areas = no_rows;
  roads = no_rows;
  relations = no_rows;
}

abbrev street_tags : Tags
street_tags = (highway_text, road_text) ∷ (building_text, road_text) ∷ []

abbrev session : List Call
session =
    way_call (pos 7) road_text street_tags (b'0' ∷ b'1' ∷ [])
    ∷ delete_call (pos 7) Kind.way
    ∷ way_call (pos 8) road_text ((building_text, road_text) ∷ []) []
    ∷ []

call_all-AreConsistent_example : AreConsistent (call_all session no_db)
call_all-AreConsistent_example =
    call_all-AreConsistent session no_db
      ((λ _. refl), (λ _. refl), (λ _. refl), (λ _. refl), (λ _. refl))

diff_tags-has_key_example :
    has_key highway_text (diff_tags true ((building_text, road_text) ∷ []) street_tags)
    ≡ has_key highway_text (kept true street_tags)
diff_tags-has_key_example =
    diff_tags-has_key highway_text true ((building_text, road_text) ∷ []) street_tags

-- A stray continuation byte, a NUL, and a letter of two bytes.
abbrev broken : Text
broken = 0x80 ∷ 0 ∷ 0xc3 ∷ 0xa9 ∷ []

sanitize_tag-Utf8Form_example : (n : _) × (n ≤ 256) × Utf8Form 0 n (sanitize_tag broken)
sanitize_tag-Utf8Form_example = sanitize_tag-Utf8Form broken

-- The letter alone.
abbrev accented : Text
accented = 0xc3 ∷ 0xa9 ∷ []

accented-Utf8Form : Utf8Form 0 1 accented
unfolding lead_length is_continuation
accented-Utf8Form = lead refl (omega arith) (more refl done)

sanitize_tag_self_example : sanitize_tag accented ≡ accented
sanitize_tag_self_example = sanitize_tag_self 1 accented (omega arith) accented-Utf8Form

overlong_form : Utf8Form 0 2 (0xc0 ∷ 0x80 ∷ 0xed ∷ 0xa0 ∷ 0x80 ∷ [])
unfolding lead_length is_continuation
overlong_form =
    lead refl (omega arith) (more refl (lead refl (omega arith) (more refl (more refl done))))

-- An overlong NUL, and a surrogate, which are no UTF-8, are kept.
overlong_kept :
    sanitize_tag (0xc0 ∷ 0x80 ∷ 0xed ∷ 0xa0 ∷ 0x80 ∷ []) ≡ 0xc0 ∷ 0x80 ∷ 0xed ∷ 0xa0 ∷ 0x80 ∷ []
overlong_kept =
    sanitize_tag_self 2 (0xc0 ∷ 0x80 ∷ 0xed ∷ 0xa0 ∷ 0x80 ∷ []) (omega arith) overlong_form
