-- ===== src/Wkb/Geometry.antt =====
-- The geometry types of include/WkbDecode.h, and the outcome of decoding.
use gpsxdb.Prelude.{List}
use gpsxdb.Prelude.Int.{ℤ}
use gpsxdb.Bytes.{Double}

abbrev pub Point : Type 0
Point = Double × Double

abbrev pub LineString : Type 0
LineString = List Point

pub record Polygon : Type 0 where
  pub outer : List Point
  pub inners : List (List Point)

-- `GeomVariant`.
pub data Geom : Type 0 where
  monostate : Geom
  point : Point → Geom
  line_string : LineString → Geom
  polygon : Polygon → Geom
  multi_line_string : List LineString → Geom
  multi_polygon : List Polygon → Geom

pub record Decoded : Type 0 where
  pub geom : Geom
  pub srid : ℤ

-- `nullopt` is the code's error return. `out_of_fuel` has no counterpart in the code.
pub data Outcome {ℓ} (A : Type ℓ) : Type ℓ where
  found : A → Outcome A
  nullopt out_of_fuel : Outcome A

infixl 5 ◌>>=◌
abbrev pub ◌>>=◌ {ℓ κ} : {A : Type ℓ} {B : Type κ} → Outcome A → (A → Outcome B) → Outcome B
found a >>= f = f a
nullopt >>= f = nullopt
out_of_fuel >>= f = out_of_fuel
