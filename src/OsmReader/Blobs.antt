-- ===== src/OsmReader/Blobs.antt =====
-- `OSMReader::readBlob` and `OSMReader::next`, src/OSMReader.cpp, on the bytes that a file has ahead.
-- Protobuf and zlib are a record of what the code calls of them; nothing stands for a failure.
pub mod Next
use gpsxdb.Prelude.{
  ℕ, zero, suc, ◌*◌, ltb, if◌then◌else◌, List, [], ◌∷◌, Option, none, some, length, take, drop,
}
use gpsxdb.Prelude.Int.{ℤ, pos, negsuc}
use gpsxdb.Bytes.{Bytes, Double}
use gpsxdb.Bytes.Signed.{to_size}
use gpsxdb.Wkb.Hex.{Text}
use gpsxdb.Nav.{same_text}
use gpsxdb.PgCopyBinary.{read_be}
use gpsxdb.OsmReader.{PrimitiveBlock, OsmEntry, parse_primitive_block}

pub record BlobHeader : Type 0 where
  pub kind : Text
  pub datasize : ℤ

pub record Blob : Type 0 where
  pub zlib_data : Option Bytes
  pub raw_size : Option ℤ
  pub raw : Option Bytes

-- `uncompress` takes the room in the buffer first.
pub record Codec : Type 0 where
  pub parse_blob_header : Bytes → Option BlobHeader
  pub parse_blob : Bytes → Option Blob
  pub parse_block : Bytes → Option PrimitiveBlock
  pub uncompress : ℕ → Bytes → Option Bytes

-- What a method ends in: a value and the bytes after it, the end of the file, an exception, or an
-- access outside of a repeated field.
pub data Read {ℓ} (A : Type ℓ) : Type ℓ where
  read : A → Bytes → Read A
  eof thrown fault out_of_fuel : Read A

abbrev pub osm_header_text : Text
osm_header_text = b'O' ∷ b'S' ∷ b'M' ∷ b'H' ∷ b'e' ∷ b'a' ∷ b'd' ∷ b'e' ∷ b'r' ∷ []

-- `file_.read` of `n` bytes, and what is done with them.
pub take_bytes {ℓ} : {A : Type ℓ} → ℕ → Bytes → (Bytes → Bytes → Read A) → Read A
take_bytes n file go = if ltb (length file) n then eof else go (take n file) (drop n file)

-- `std::vector<char>` of a negative size throws.
pub take_sized {ℓ} : {A : Type ℓ} → ℤ → Bytes → (Bytes → Bytes → Read A) → Read A
take_sized (pos n) file go = take_bytes n file go
take_sized (negsuc n) file go = thrown

-- `dest_len`.
abbrev pub room_for : Option ℤ → Bytes → ℕ
room_for (some size) zdata = to_size size
room_for none zdata = length zdata * 4

module _ (codec : Codec) where
  -- The branches on what the blob has.
  unfoldable pub blob_data : Text → Blob → Option Bytes
  blob_data kind blob = if same_text kind osm_header_text then some [] else elim blob.zlib_data [
    | some zdata ↦ codec.uncompress (room_for blob.raw_size zdata) zdata
    | none ↦ elim blob.raw [ some bytes ↦ some bytes | none ↦ some [] ]
  ]

  pub read_contents : BlobHeader → Bytes → Bytes → Read Bytes
  read_contents header bytes file = elim (codec.parse_blob bytes) [
    | none ↦ thrown
    | some blob ↦ elim (blob_data header.kind blob) [
      | none ↦ thrown
      | some content ↦ read content file
    ]
  ]

  pub read_message : Bytes → Bytes → Read Bytes
  read_message bytes file = elim (codec.parse_blob_header bytes) [
    | none ↦ thrown
    | some header ↦ take_sized header.datasize file (read_contents header)
  ]

  -- After the word with the size of the header.
  unfoldable pub read_header : Bytes → Bytes → Read Bytes
  read_header word file = take_bytes (read_be 4 word 0) file read_message

  pub read_blob : Bytes → Read Bytes
  read_blob file = take_bytes 4 file read_header

  module _ (degrees : ℤ → Double) where
    pub entries_in : Bytes → Bytes → Read (List OsmEntry)
    entries_in content rest = elim (codec.parse_block content) [
      | none ↦ thrown
      | some b ↦ elim (parse_primitive_block degrees b) [
        | none ↦ fault
        | some entries ↦ read entries rest
      ]
    ]

    -- The loop of `next`.
    pub next_on : ℕ → Bytes → Read (List OsmEntry)
    next_on zero file = out_of_fuel
    next_on (suc fuel) file = elim (read_blob file) [
      | read content rest ↦ elim content [
        | [] ↦ next_on fuel rest
        | b ∷ bs ↦ entries_in (b ∷ bs) rest
      ]
      | eof ↦ eof
      | thrown ↦ thrown
      | fault ↦ fault
      | out_of_fuel ↦ out_of_fuel
    ]

    -- Each blob takes four bytes at least: the number of the bytes is fuel enough.
    pub next : Bytes → Read (List OsmEntry)
    next file = next_on (suc (length file)) file
