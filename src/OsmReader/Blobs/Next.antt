-- ===== src/OsmReader/Blobs/Next.antt =====
-- A file of blobs is read as the entries of its blocks.
use gpsxdb.Prelude.{
  ℕ, suc, ◌+◌, ◌-◌, ◌^◌, ◌<◌, ◌≤◌, ◌≡◌, refl, sym, ◌∙◌, ap, subst, false, ltb, List, [], ◌∷◌, ◌++◌,
  append_assoc, map, length, length-append, take-append_self, drop-append_self, some, All, arith,
  append-nil,
}
use gpsxdb.Prelude.Int.{ℤ, pos}
use gpsxdb.Bytes.{Bytes, Double}
use gpsxdb.PgCopyBinary.{read_be}
use gpsxdb.PgCopyBinary.BigEndian.{write_be, length-write_be, read_be-write_be}
use gpsxdb.OsmReader.{PrimitiveBlock}
use gpsxdb.OsmReader.Encode.{RawGroup, pbf_group, IsGroup}
use gpsxdb.OsmReader.RoundTrip.{entries_of, parse_primitive_block-entries}
use gpsxdb.OsmReader.Blobs.{
  BlobHeader, Blob, Codec, Read, read, take_bytes, take_sized, blob_data, read_contents,
  read_message, read_header, read_blob, entries_in, next_on, next,
}

-- The messages of a blob, as bytes.
pub record Stored : Type 0 where
  pub header : Bytes
  pub blob : Bytes

abbrev pub frame : Stored → Bytes
frame x = write_be 4 (length x.header) ++ (x.header ++ x.blob)

abbrev pub frames : List Stored → Bytes
frames [] = []
frames (x ∷ xs) = frame x ++ frames xs

-- The bytes `xs` are there, whatever comes after them.
take_bytes-append :
    {A : Type 0} (xs ys : Bytes) (go : Bytes → Bytes → Read A)
    → take_bytes (length xs) (xs ++ ys) go ≡ go xs ys
unfolding take_bytes
take_bytes-append xs ys go =
    let e : ltb (length (xs ++ ys)) (length xs) ≡ false =
      (let l = length-append xs ys in ground arith) in
    rw (e, take-append_self xs ys, drop-append_self xs ys) refl

module _ (codec : Codec) where
  -- Protobuf and zlib read the blob as these contents.
  abbrev pub Contains : Bytes → Stored → Type 0
  Contains content x =
      (h : BlobHeader) × (b : Blob) × (length x.header < 2 ^ 32)
      × (codec.parse_blob_header x.header ≡ some h)
      × (h.datasize ≡ pos (length x.blob))
      × (codec.parse_blob x.blob ≡ some b)
      × (blob_data codec h.kind b ≡ some content)

  read_blob-frame :
      (content rest : Bytes) (x : Stored)
      → Contains content x
      → read_blob codec (frame x ++ rest) ≡ read content rest
  unfolding read_blob read_header read_message read_contents take_sized
  read_blob-frame content rest x (h, b, l, ph, size, pb, holds) =
      let word = write_be 4 (length x.header) in
      let four : length word ≡ 4 = length-write_be 4 (length x.header) in
      let count : read_be 4 word 0 ≡ length x.header =
        subst (λ y. read_be 4 y 0 ≡ length x.header) (append-nil word)
          (read_be-write_be 4 (length x.header) [] (omega arith)) in
      let file : frame x ++ rest ≡ word ++ (x.header ++ (x.blob ++ rest)) =
        append_assoc word (x.header ++ x.blob) rest
        ∙ ap (λ y. word ++ y) (append_assoc x.header x.blob rest) in
      let message = take_bytes-append x.header (x.blob ++ rest) (read_message codec) in
      let body = take_bytes-append x.blob rest (read_contents codec h) in
      ap (read_blob codec) file
      ∙ ap (λ n. take_bytes n (word ++ (x.header ++ (x.blob ++ rest))) (read_header codec))
          (sym four)
      ∙ take_bytes-append word (x.header ++ (x.blob ++ rest)) (read_header codec)
      ∙ ap (λ n. take_bytes n (x.header ++ (x.blob ++ rest)) (read_message codec)) count
      ∙ message
      ∙ rw (ph, read_message, size) (body ∙ rw (pb, read_contents, holds) refl)

  module _ (degrees : ℤ → Double) where
    next_on-frames :
        (fuel : ℕ) (xs : List Stored) (rest : Bytes)
        → All (Contains []) xs
        → next_on codec degrees (length xs + fuel) (frames xs ++ rest)
          ≡ next_on codec degrees fuel rest
    unfolding next_on
    next_on-frames fuel [] rest h = ap (λ n. next_on codec degrees n rest) (omega arith)
    next_on-frames fuel (x ∷ xs) rest (h, hs) =
        let e : suc (length xs) + fuel ≡ suc (length xs + fuel) = omega arith in
        let file : frames (x ∷ xs) ++ rest ≡ frame x ++ (frames xs ++ rest) =
          append_assoc (frame x) (frames xs) rest in
        rw (e, file, next_on, read_blob-frame [] (frames xs ++ rest) x h)
          (next_on-frames fuel xs rest hs)

    length-frames : (xs : List Stored) → length xs ≤ length (frames xs)
    length-frames [] = omega arith
    length-frames (x ∷ xs) = omega (
      arith,
      length-frames xs,
      length-append (frame x) (frames xs),
      length-append (write_be 4 (length x.header)) (x.header ++ x.blob),
      length-write_be 4 (length x.header),
    )

    next_on-block :
        (fuel : ℕ) (x : Stored) (content rest : Bytes) (b : PrimitiveBlock) (gs : List RawGroup)
        → 0 < length content
        → Contains content x
        → codec.parse_block content ≡ some (record b { groups = map pbf_group gs })
        → All (IsGroup (length b.strtable)) gs
        → next_on codec degrees (suc fuel) (frame x ++ rest) ≡ read (entries_of degrees b gs) rest
    unfolding next_on entries_in
    next_on-block fuel x [] rest b gs l h p ok = absurd (omega arith)
    next_on-block fuel x (c ∷ cs) rest b gs l h p ok =
        rw
          (
            read_blob-frame (c ∷ cs) rest x h,
            next_on,
            p,
            entries_in,
            parse_primitive_block-entries degrees b gs ok,
          )
          refl

    -- A file that has any blobs without contents ahead, as that of the header is, and then one that
    -- protobuf and zlib read as a block, which encodes any groups of dense nodes, nodes, ways and
    -- relations with 64-bit ids, coordinates and references and with tags from its table of strings,
    -- the first of which is the key of none: next ends, stays within the repeated fields and gives
    -- exactly the entries that are encoded, in their order, each with its id, its tags, the name that
    -- these say, and its coordinates, its references or its members that are ways with their roles;
    -- and the file is then after the blob.
    pub next-entries :
        (xs : List Stored) (x : Stored) (content rest : Bytes) (b : PrimitiveBlock)
        (gs : List RawGroup)
        → All (Contains []) xs
        → Contains content x
        → 0 < length content
        → codec.parse_block content ≡ some (record b { groups = map pbf_group gs })
        → All (IsGroup (length b.strtable)) gs
        → next codec degrees (frames xs ++ (frame x ++ rest)) ≡ read (entries_of degrees b gs) rest
    unfolding next
    next-entries xs x content rest b gs hs h l p ok =
        let file = frames xs ++ (frame x ++ rest) in
        let fuel = length file - length xs in
        let enough : suc (length file) ≡ length xs + suc fuel =
          omega (arith, length-frames xs, length-append (frames xs) (frame x ++ rest)) in
        ap (λ n. next_on codec degrees n file) enough
        ∙ next_on-frames (suc fuel) xs (frame x ++ rest) hs
        ∙ next_on-block fuel x content rest b gs l h p ok
