-- ===== src/Nav/Names.antt =====
-- The keys and values of tags that src/NavDB.cpp and the delta appliers name, as texts.
use gpsxdb.Prelude.{List, [], ◌∷◌}
use gpsxdb.Wkb.Hex.{Text}

abbrev pub building_text : Text
building_text = b'b' ∷ b'u' ∷ b'i' ∷ b'l' ∷ b'd' ∷ b'i' ∷ b'n' ∷ b'g' ∷ []

abbrev pub traffic_sign_text : Text
traffic_sign_text =
    b't' ∷ b'r' ∷ b'a' ∷ b'f' ∷ b'f' ∷ b'i' ∷ b'c' ∷ b'_' ∷ b's' ∷ b'i' ∷ b'g' ∷ b'n' ∷ []

abbrev pub highway_text : Text
highway_text = b'h' ∷ b'i' ∷ b'g' ∷ b'h' ∷ b'w' ∷ b'a' ∷ b'y' ∷ []

abbrev pub barrier_text : Text
barrier_text = b'b' ∷ b'a' ∷ b'r' ∷ b'r' ∷ b'i' ∷ b'e' ∷ b'r' ∷ []

abbrev pub natural_text : Text
natural_text = b'n' ∷ b'a' ∷ b't' ∷ b'u' ∷ b'r' ∷ b'a' ∷ b'l' ∷ []

abbrev pub height_text : Text
height_text = b'h' ∷ b'e' ∷ b'i' ∷ b'g' ∷ b'h' ∷ b't' ∷ []

abbrev pub ele_text : Text
ele_text = b'e' ∷ b'l' ∷ b'e' ∷ []

abbrev pub route_text : Text
route_text = b'r' ∷ b'o' ∷ b'u' ∷ b't' ∷ b'e' ∷ []

abbrev pub road_text : Text
road_text = b'r' ∷ b'o' ∷ b'a' ∷ b'd' ∷ []

abbrev pub excluded_keys : List Text
excluded_keys =
    (b's' ∷ b'o' ∷ b'u' ∷ b'r' ∷ b'c' ∷ b'e' ∷ [])
    ∷ (b'c' ∷ b'r' ∷ b'e' ∷ b'a' ∷ b't' ∷ b'e' ∷ b'd' ∷ b'_' ∷ b'b' ∷ b'y' ∷ [])
    ∷ (b'a' ∷ b't' ∷ b't' ∷ b'r' ∷ b'i' ∷ b'b' ∷ b'u' ∷ b't' ∷ b'i' ∷ b'o' ∷ b'n' ∷ [])
    ∷ []

abbrev pub excluded_prefixes : List Text
excluded_prefixes =
    (b'a' ∷ b'd' ∷ b'd' ∷ b'r' ∷ b':' ∷ [])
    ∷ (b'b' ∷ b'u' ∷ b'i' ∷ b'l' ∷ b'd' ∷ b'i' ∷ b'n' ∷ b'g' ∷ b':' ∷ [])
    ∷ (b's' ∷ b'o' ∷ b'u' ∷ b'r' ∷ b'c' ∷ b'e' ∷ b':' ∷ [])
    ∷ (b't' ∷ b'i' ∷ b'g' ∷ b'e' ∷ b'r' ∷ b':' ∷ [])
    ∷ []

abbrev pub kept_buildings : List Text
kept_buildings =
    (b'h' ∷ b'a' ∷ b'n' ∷ b'g' ∷ b'a' ∷ b'r' ∷ [])
    ∷ (b't' ∷ b'e' ∷ b'r' ∷ b'm' ∷ b'i' ∷ b'n' ∷ b'a' ∷ b'l' ∷ [])
    ∷ (b'c' ∷ b'o' ∷ b'n' ∷ b't' ∷ b'r' ∷ b'o' ∷ b'l' ∷ b'_' ∷ b't' ∷ b'o' ∷ b'w' ∷ b'e' ∷ b'r'
        ∷ [])
    ∷ []

abbrev pub dropped_highways : List Text
dropped_highways =
    (b's' ∷ b't' ∷ b'o' ∷ b'p' ∷ [])
    ∷ (b'g' ∷ b'i' ∷ b'v' ∷ b'e' ∷ b'_' ∷ b'w' ∷ b'a' ∷ b'y' ∷ [])
    ∷ (b't' ∷ b'r' ∷ b'a' ∷ b'f' ∷ b'f' ∷ b'i' ∷ b'c' ∷ b'_' ∷ b's' ∷ b'i' ∷ b'g' ∷ b'n' ∷ b'a'
        ∷ b'l' ∷ b's' ∷ [])
    ∷ (b'm' ∷ b'i' ∷ b'l' ∷ b'e' ∷ b's' ∷ b't' ∷ b'o' ∷ b'n' ∷ b'e' ∷ [])
    ∷ (b'c' ∷ b'r' ∷ b'o' ∷ b's' ∷ b's' ∷ b'i' ∷ b'n' ∷ b'g' ∷ [])
    ∷ (b't' ∷ b'u' ∷ b'r' ∷ b'n' ∷ b'i' ∷ b'n' ∷ b'g' ∷ b'_' ∷ b'c' ∷ b'i' ∷ b'r' ∷ b'c' ∷ b'l'
        ∷ b'e' ∷ [])
    ∷ (b't' ∷ b'u' ∷ b'r' ∷ b'n' ∷ b'i' ∷ b'n' ∷ b'g' ∷ b'_' ∷ b'l' ∷ b'o' ∷ b'o' ∷ b'p' ∷ [])
    ∷ (b'm' ∷ b'o' ∷ b't' ∷ b'o' ∷ b'r' ∷ b'w' ∷ b'a' ∷ b'y' ∷ b'_' ∷ b'j' ∷ b'u' ∷ b'n' ∷ b'c'
        ∷ b't' ∷ b'i' ∷ b'o' ∷ b'n' ∷ [])
    ∷ (b's' ∷ b't' ∷ b'r' ∷ b'e' ∷ b'e' ∷ b't' ∷ b'_' ∷ b'l' ∷ b'a' ∷ b'm' ∷ b'p' ∷ [])
    ∷ (b'b' ∷ b'u' ∷ b's' ∷ b'_' ∷ b's' ∷ b't' ∷ b'o' ∷ b'p' ∷ [])
    ∷ []

abbrev pub dropped_barriers : List Text
dropped_barriers =
    (b'g' ∷ b'a' ∷ b't' ∷ b'e' ∷ [])
    ∷ (b'b' ∷ b'o' ∷ b'l' ∷ b'l' ∷ b'a' ∷ b'r' ∷ b'd' ∷ [])
    ∷ (b'k' ∷ b'e' ∷ b'r' ∷ b'b' ∷ [])
    ∷ (b'l' ∷ b'i' ∷ b'f' ∷ b't' ∷ b'_' ∷ b'g' ∷ b'a' ∷ b't' ∷ b'e' ∷ [])
    ∷ (b'b' ∷ b'l' ∷ b'o' ∷ b'c' ∷ b'k' ∷ [])
    ∷ (b'c' ∷ b'y' ∷ b'c' ∷ b'l' ∷ b'e' ∷ b'_' ∷ b'b' ∷ b'a' ∷ b'r' ∷ b'r' ∷ b'i' ∷ b'e' ∷ b'r'
        ∷ [])
    ∷ (b's' ∷ b'w' ∷ b'i' ∷ b'n' ∷ b'g' ∷ b'_' ∷ b'g' ∷ b'a' ∷ b't' ∷ b'e' ∷ [])
    ∷ (b's' ∷ b't' ∷ b'i' ∷ b'l' ∷ b'e' ∷ [])
    ∷ []

abbrev pub dropped_natures : List Text
dropped_natures =
    (b't' ∷ b'r' ∷ b'e' ∷ b'e' ∷ [])
    ∷ (b's' ∷ b'h' ∷ b'r' ∷ b'u' ∷ b'b' ∷ [])
    ∷ (b'r' ∷ b'o' ∷ b'c' ∷ b'k' ∷ [])
    ∷ []
