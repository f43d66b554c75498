-- ===== src/OsmReader/Tests.antt =====
-- A file with a header and a block, through a codec for these two blobs.
use gpsxdb.Prelude.{
  ◌≡◌, refl, List, [], ◌∷◌, ◌++◌, map, Option, some, none, arith, ◌==◌, if◌then◌else◌,
}
use gpsxdb.Prelude.Int.{ℤ, pos, negsuc}
use gpsxdb.Bytes.{Bytes, Double}
use gpsxdb.Bytes.Signed.{to_size, to_i64}
use gpsxdb.Wkb.Hex.{Text}
use gpsxdb.Nav.{same_text}
use gpsxdb.OsmReader.{PrimitiveBlock, way_type, node_type, refs_from, add_i64}
use gpsxdb.OsmReader.Encode.{RawGroup, pbf_group}
use gpsxdb.OsmReader.RoundTrip.{entries_of}
use gpsxdb.OsmReader.Blobs.{BlobHeader, Codec, read, osm_header_text, blob_data, next}
use gpsxdb.OsmReader.Blobs.Next.{Stored, frame, frames, Contains, next-entries}

abbrev name_key : Text
name_key = b'n' ∷ b'a' ∷ b'm' ∷ b'e' ∷ []

abbrev some_groups : List RawGroup
some_groups =
    record {
      dense =
          record { id = pos 7; lat = pos 100; lon = negsuc 4; tags = (1, 2) ∷ [] }
          ∷ record { id = pos 5; lat = pos 90; lon = pos 3; tags = [] }
          ∷ [];
      nodes = record { id = pos 9; lat = pos 1; lon = pos 1; tags = [] } ∷ [];
      ways = record { id = pos 20; tags = (2, 1) ∷ []; refs = pos 7 ∷ pos 5 ∷ pos 7 ∷ [] } ∷ [];
      relations =
          record {
            id = pos 30;
            tags = [];
            members =
                record { kind = way_type; id = pos 20; role = 2 }
                ∷ record { kind = node_type; id = pos 5; role = 0 }
                ∷ [];
          }
          ∷ [];
    }
    ∷ []

abbrev block : PrimitiveBlock
block = record {
  granularity = pos 100;
  lat_offset = pos 0;
  lon_offset = pos 0;
  strtable = [] ∷ name_key ∷ (b'x' ∷ []) ∷ [];
  groups = [];
}

-- The first byte of a message says what it is: 1 and 2 are the headers.
abbrev header_of : Bytes → Option BlobHeader
header_of [] = none
header_of (k ∷ bs) =
    if k == 1
    then some (record { kind = osm_header_text; datasize = pos 1 })
    else some (record { kind = []; datasize = pos 2 })

abbrev codec : Codec
codec = record {
  parse_blob_header = header_of;
  parse_blob = λ bytes. some (record { zlib_data = none; raw_size = none; raw = some bytes });
  parse_block = λ bytes. some (record block { groups = map pbf_group some_groups });
  uncompress = λ room bytes. none;
}

abbrev header_blob : Stored
header_blob = record { header = 1 ∷ []; blob = 9 ∷ [] }

abbrev data_blob : Stored
data_blob = record { header = 2 ∷ []; blob = 8 ∷ 8 ∷ [] }

header_blob-Contains : Contains codec [] header_blob
unfolding blob_data same_text
header_blob-Contains = (
  record { kind = osm_header_text; datasize = pos 1 },
  record { zlib_data = none; raw_size = none; raw = some (9 ∷ []) },
  omega arith,
  refl,
  refl,
  refl,
  refl,
)

data_blob-Contains : Contains codec (8 ∷ 8 ∷ []) data_blob
unfolding blob_data same_text
data_blob-Contains = (
  record { kind = []; datasize = pos 2 },
  record { zlib_data = none; raw_size = none; raw = some (8 ∷ 8 ∷ []) },
  omega arith,
  refl,
  refl,
  refl,
  refl,
)

abbrev as_double : ℤ → Double
as_double z = to_size z

next-entries_example :
    next codec as_double (frames (header_blob ∷ []) ++ (frame data_blob ++ (3 ∷ [])))
    ≡ read (entries_of as_double block some_groups) (3 ∷ [])
next-entries_example =
    next-entries codec as_double (header_blob ∷ []) data_blob (8 ∷ 8 ∷ []) (3 ∷ []) block
      some_groups (header_blob-Contains, tt) data_blob-Contains (omega arith) refl (omega arith)

refs_test : refs_from (pos 0) (pos 7 ∷ negsuc 1 ∷ []) ≡ pos 7 ∷ pos 5 ∷ []
unfolding refs_from add_i64 to_size to_i64
refs_test = refl
