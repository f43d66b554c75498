-- ===== src/Import/Names.antt =====
-- The names of keys and values in src/main.cpp.
use gpsxdb.Prelude.{List, [], ◌∷◌}
use gpsxdb.Wkb.Hex.{Text}

abbrev pub area_text : Text
area_text = b'a' ∷ b'r' ∷ b'e' ∷ b'a' ∷ []

abbrev pub yes_text : Text
yes_text = b'y' ∷ b'e' ∷ b's' ∷ []

abbrev pub no_text : Text
no_text = b'n' ∷ b'o' ∷ []

abbrev pub inner_text : Text
inner_text = b'i' ∷ b'n' ∷ b'n' ∷ b'e' ∷ b'r' ∷ []

abbrev pub type_text : Text
type_text = b't' ∷ b'y' ∷ b'p' ∷ b'e' ∷ []

abbrev pub multipolygon_text : Text
multipolygon_text =
    b'm' ∷ b'u' ∷ b'l' ∷ b't' ∷ b'i' ∷ b'p' ∷ b'o' ∷ b'l' ∷ b'y' ∷ b'g' ∷ b'o' ∷ b'n' ∷ []

abbrev pub boundary_text : Text
boundary_text = b'b' ∷ b'o' ∷ b'u' ∷ b'n' ∷ b'd' ∷ b'a' ∷ b'r' ∷ b'y' ∷ []

abbrev pub route_text : Text
route_text = b'r' ∷ b'o' ∷ b'u' ∷ b't' ∷ b'e' ∷ []

abbrev pub road_text : Text
road_text = b'r' ∷ b'o' ∷ b'a' ∷ b'd' ∷ []

abbrev pub highway_text : Text
highway_text = b'h' ∷ b'i' ∷ b'g' ∷ b'h' ∷ b'w' ∷ b'a' ∷ b'y' ∷ []

abbrev pub linear_keys : List Text
linear_keys =
    (b'h' ∷ b'i' ∷ b'g' ∷ b'h' ∷ b'w' ∷ b'a' ∷ b'y' ∷ [])
    ∷ (b'r' ∷ b'a' ∷ b'i' ∷ b'l' ∷ b'w' ∷ b'a' ∷ b'y' ∷ [])
    ∷ (b'w' ∷ b'a' ∷ b't' ∷ b'e' ∷ b'r' ∷ b'w' ∷ b'a' ∷ b'y' ∷ [])
    ∷ (b'p' ∷ b'o' ∷ b'w' ∷ b'e' ∷ b'r' ∷ [])
    ∷ (b'm' ∷ b'a' ∷ b'n' ∷ b'_' ∷ b'm' ∷ b'a' ∷ b'd' ∷ b'e' ∷ [])
    ∷ []

abbrev pub linear_tag_values : List (Text × Text)
linear_tag_values =
    (
      b'j' ∷ b'u' ∷ b'n' ∷ b'c' ∷ b't' ∷ b'i' ∷ b'o' ∷ b'n' ∷ [],
      b'r' ∷ b'o' ∷ b'u' ∷ b'n' ∷ b'd' ∷ b'a' ∷ b'b' ∷ b'o' ∷ b'u' ∷ b't' ∷ [],
    )
    ∷ (
      b'j' ∷ b'u' ∷ b'n' ∷ b'c' ∷ b't' ∷ b'i' ∷ b'o' ∷ b'n' ∷ [],
      b'c' ∷ b'i' ∷ b'r' ∷ b'c' ∷ b'u' ∷ b'l' ∷ b'a' ∷ b'r' ∷ [],
    )
    ∷ (b'b' ∷ b'a' ∷ b'r' ∷ b'r' ∷ b'i' ∷ b'e' ∷ b'r' ∷ [], b'f' ∷ b'e' ∷ b'n' ∷ b'c' ∷ b'e' ∷ [])
    ∷ (b'b' ∷ b'a' ∷ b'r' ∷ b'r' ∷ b'i' ∷ b'e' ∷ b'r' ∷ [], b'w' ∷ b'a' ∷ b'l' ∷ b'l' ∷ [])
    ∷ (b'b' ∷ b'a' ∷ b'r' ∷ b'r' ∷ b'i' ∷ b'e' ∷ b'r' ∷ [], b'h' ∷ b'e' ∷ b'd' ∷ b'g' ∷ b'e' ∷ [])
    ∷ (
      b'b' ∷ b'a' ∷ b'r' ∷ b'r' ∷ b'i' ∷ b'e' ∷ b'r' ∷ [],
      b'r' ∷ b'e' ∷ b't' ∷ b'a' ∷ b'i' ∷ b'n' ∷ b'i' ∷ b'n' ∷ b'g' ∷ b'_' ∷ b'w' ∷ b'a' ∷ b'l'
          ∷ b'l' ∷ [],
    )
    ∷ (
      b'b' ∷ b'a' ∷ b'r' ∷ b'r' ∷ b'i' ∷ b'e' ∷ b'r' ∷ [],
      b'c' ∷ b'i' ∷ b't' ∷ b'y' ∷ b'_' ∷ b'w' ∷ b'a' ∷ b'l' ∷ b'l' ∷ [],
    )
    ∷ (
      b'a' ∷ b'e' ∷ b'r' ∷ b'o' ∷ b'w' ∷ b'a' ∷ b'y' ∷ [],
      b'r' ∷ b'u' ∷ b'n' ∷ b'w' ∷ b'a' ∷ b'y' ∷ [],
    )
    ∷ (
      b'a' ∷ b'e' ∷ b'r' ∷ b'o' ∷ b'w' ∷ b'a' ∷ b'y' ∷ [],
      b't' ∷ b'a' ∷ b'x' ∷ b'i' ∷ b'w' ∷ b'a' ∷ b'y' ∷ [],
    )
    ∷ (
      b'a' ∷ b'e' ∷ b'r' ∷ b'o' ∷ b'w' ∷ b'a' ∷ b'y' ∷ [],
      b't' ∷ b'a' ∷ b'x' ∷ b'i' ∷ b'l' ∷ b'a' ∷ b'n' ∷ b'e' ∷ [],
    )
    ∷ []

abbrev pub area_keys : List Text
area_keys =
    (b'b' ∷ b'u' ∷ b'i' ∷ b'l' ∷ b'd' ∷ b'i' ∷ b'n' ∷ b'g' ∷ [])
    ∷ (b'b' ∷ b'u' ∷ b'i' ∷ b'l' ∷ b'd' ∷ b'i' ∷ b'n' ∷ b'g' ∷ b':' ∷ b'p' ∷ b'a' ∷ b'r' ∷ b't'
        ∷ [])
    ∷ (b'l' ∷ b'a' ∷ b'n' ∷ b'd' ∷ b'u' ∷ b's' ∷ b'e' ∷ [])
    ∷ (b'l' ∷ b'e' ∷ b'i' ∷ b's' ∷ b'u' ∷ b'r' ∷ b'e' ∷ [])
    ∷ (b'n' ∷ b'a' ∷ b't' ∷ b'u' ∷ b'r' ∷ b'a' ∷ b'l' ∷ [])
    ∷ (b'a' ∷ b'm' ∷ b'e' ∷ b'n' ∷ b'i' ∷ b't' ∷ b'y' ∷ [])
    ∷ (b's' ∷ b'h' ∷ b'o' ∷ b'p' ∷ [])
    ∷ (b't' ∷ b'o' ∷ b'u' ∷ b'r' ∷ b'i' ∷ b's' ∷ b'm' ∷ [])
    ∷ (b'h' ∷ b'i' ∷ b's' ∷ b't' ∷ b'o' ∷ b'r' ∷ b'i' ∷ b'c' ∷ [])
    ∷ (b'm' ∷ b'i' ∷ b'l' ∷ b'i' ∷ b't' ∷ b'a' ∷ b'r' ∷ b'y' ∷ [])
    ∷ (b'b' ∷ b'o' ∷ b'u' ∷ b'n' ∷ b'd' ∷ b'a' ∷ b'r' ∷ b'y' ∷ [])
    ∷ (b'p' ∷ b'l' ∷ b'a' ∷ b'c' ∷ b'e' ∷ [])
    ∷ (b's' ∷ b'p' ∷ b'o' ∷ b'r' ∷ b't' ∷ [])
    ∷ (b'l' ∷ b'a' ∷ b'n' ∷ b'd' ∷ b'c' ∷ b'o' ∷ b'v' ∷ b'e' ∷ b'r' ∷ [])
    ∷ []
