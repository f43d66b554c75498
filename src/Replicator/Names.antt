-- ===== src/Replicator/Names.antt =====
-- The names that src/Replicator.cpp keeps its rows of external_data_state under, and the key of
-- state.txt.
use gpsxdb.Prelude.{[], ◌∷◌}
use gpsxdb.Wkb.Hex.{Text}

abbrev pub osm_text : Text
osm_text = b'o' ∷ b's' ∷ b'm' ∷ []

abbrev pub airports_text : Text
airports_text = b'a' ∷ b'i' ∷ b'r' ∷ b'p' ∷ b'o' ∷ b'r' ∷ b't' ∷ b's' ∷ []

abbrev pub obstacles_text : Text
obstacles_text =
    b'f' ∷ b'a' ∷ b'a' ∷ b'_' ∷ b'o' ∷ b'b' ∷ b's' ∷ b't' ∷ b'a' ∷ b'c' ∷ b'l' ∷ b'e' ∷ b's' ∷ []

abbrev pub wmm_text : Text
wmm_text = b'w' ∷ b'm' ∷ b'm' ∷ []

abbrev pub airspace_text : Text
airspace_text = b'a' ∷ b'i' ∷ b'r' ∷ b's' ∷ b'p' ∷ b'a' ∷ b'c' ∷ b'e' ∷ []

abbrev pub sequence_number_text : Text
sequence_number_text =
    b's' ∷ b'e' ∷ b'q' ∷ b'u' ∷ b'e' ∷ b'n' ∷ b'c' ∷ b'e' ∷ b'N' ∷ b'u' ∷ b'm' ∷ b'b' ∷ b'e' ∷ b'r'
    ∷ b'=' ∷ []
