-- ===== src/OscReader/Names.antt =====
-- The names of elements and attributes that src/OSCReader.cpp compares with.
use gpsxdb.Prelude.{[], ◌∷◌}
use gpsxdb.Wkb.Hex.{Text}

abbrev pub osm_change_text : Text
osm_change_text = b'o' ∷ b's' ∷ b'm' ∷ b'C' ∷ b'h' ∷ b'a' ∷ b'n' ∷ b'g' ∷ b'e' ∷ []

abbrev pub create_text : Text
create_text = b'c' ∷ b'r' ∷ b'e' ∷ b'a' ∷ b't' ∷ b'e' ∷ []

abbrev pub modify_text : Text
modify_text = b'm' ∷ b'o' ∷ b'd' ∷ b'i' ∷ b'f' ∷ b'y' ∷ []

abbrev pub delete_text : Text
delete_text = b'd' ∷ b'e' ∷ b'l' ∷ b'e' ∷ b't' ∷ b'e' ∷ []

abbrev pub node_text : Text
node_text = b'n' ∷ b'o' ∷ b'd' ∷ b'e' ∷ []

abbrev pub way_text : Text
way_text = b'w' ∷ b'a' ∷ b'y' ∷ []

abbrev pub relation_text : Text
relation_text = b'r' ∷ b'e' ∷ b'l' ∷ b'a' ∷ b't' ∷ b'i' ∷ b'o' ∷ b'n' ∷ []

abbrev pub tag_text : Text
tag_text = b't' ∷ b'a' ∷ b'g' ∷ []

abbrev pub nd_text : Text
nd_text = b'n' ∷ b'd' ∷ []

abbrev pub member_text : Text
member_text = b'm' ∷ b'e' ∷ b'm' ∷ b'b' ∷ b'e' ∷ b'r' ∷ []

abbrev pub id_text : Text
id_text = b'i' ∷ b'd' ∷ []

abbrev pub lat_text : Text
lat_text = b'l' ∷ b'a' ∷ b't' ∷ []

abbrev pub lon_text : Text
lon_text = b'l' ∷ b'o' ∷ b'n' ∷ []

abbrev pub k_text : Text
k_text = b'k' ∷ []

abbrev pub v_text : Text
v_text = b'v' ∷ []

abbrev pub ref_text : Text
ref_text = b'r' ∷ b'e' ∷ b'f' ∷ []

abbrev pub type_text : Text
type_text = b't' ∷ b'y' ∷ b'p' ∷ b'e' ∷ []

abbrev pub name_text : Text
name_text = b'n' ∷ b'a' ∷ b'm' ∷ b'e' ∷ []
