-- ===== src/Export/Tests.antt =====
-- Three rows, one of them without a geometry, and the tags of two, for two regions.
use gpsxdb.Prelude.{◌≡◌, refl, ◌&&◌, Bool, true, false, List, [], ◌∷◌, none, some}
use gpsxdb.Prelude.Int.{pos, negsuc, eqb_ℤ}
use gpsxdb.Bytes.{Bytes}
use gpsxdb.Wkb.Geometry.{Geom}
use gpsxdb.Export.{Row, is_hit, process_pair}
use gpsxdb.Export.Lookup.{is_matched}
use gpsxdb.Export.Counted.{count}
use gpsxdb.Export.Divided.{process_pair-count}

abbrev origin : Bytes
origin = 1 ∷ 1 ∷ 0 ∷ 0 ∷ 0 ∷ 0 ∷ 0 ∷ 0 ∷ 0 ∷ 0 ∷ 0 ∷ 0 ∷ 0 ∷ 0 ∷ 0 ∷ 0 ∷ 0 ∷ 0 ∷ 0 ∷ 0 ∷ 0 ∷ []

abbrev two_regions : List (Geom → Bool)
two_regions = (λ g. false) ∷ (λ g. true) ∷ []

abbrev three_rows : List Row
three_rows =
    record { id = negsuc 0; geog = some origin; raw = 7 ∷ [] }
    ∷ record { id = pos 3; geog = none; raw = 8 ∷ [] }
    ∷ record { id = pos 40; geog = some origin; raw = 9 ∷ [] }
    ∷ []

abbrev two_tags : List Row
two_tags =
    record { id = pos 3; geog = none; raw = 1 ∷ [] }
    ∷ record { id = pos 40; geog = none; raw = 2 ∷ [] }
    ∷ []

process_pair-count_example :
    (count (λ r. true) (process_pair two_regions (negsuc 0) (pos 40) 2 1 three_rows two_tags).0
      ≡ count (λ p. is_hit two_regions 1 p && true) three_rows)
    × (count (λ r. true) (process_pair two_regions (negsuc 0) (pos 40) 2 1 three_rows two_tags).1
        ≡ count (λ c. is_matched two_regions 1 three_rows c.id && true) two_tags)
unfolding eqb_ℤ
process_pair-count_example =
    process_pair-count two_regions (negsuc 0) (pos 40) 2 1 three_rows two_tags (λ r. true)
      (refl, (refl, (refl, tt))) ((refl, (refl, tt)), ((refl, tt), (tt, tt)))
