-- ===== src/PgCopyBinary/Tests.antt =====
-- Two rows, delivered in three chunks.
use gpsxdb.Prelude.{◌≡◌, refl, true, List, [], ◌∷◌, suc, length, map, some, none, All, arith}
use gpsxdb.PgCopyBinary.{Answer, chunk, Reader, ok, open_reader, open_writer}
use gpsxdb.PgCopyBinary.Stream.{AreChunks, delivered}
use gpsxdb.PgCopyBinary.BigEndian.{write_be}
use gpsxdb.PgCopyBinary.Rows.{Value, IsRow, row_bytes, fields_bytes, field_bytes, row_of_values}
use gpsxdb.PgCopyBinary.RoundTrip.{read_rows, rows_bytes, written, file_bytes, read_rows-written}

abbrev two_rows : List (List Value)
two_rows = (some (1 ∷ 2 ∷ []) ∷ none ∷ []) ∷ (some [] ∷ []) ∷ []

-- The header is divided, and so is the first row.
abbrev three_chunks : List Answer
three_chunks =
    chunk (b'P' ∷ b'G' ∷ b'C' ∷ b'O' ∷ b'P' ∷ [])
    ∷ chunk (b'Y' ∷ 10 ∷ 255 ∷ 13 ∷ 10 ∷ 0 ∷ 0 ∷ 0 ∷ 0 ∷ 0 ∷ 0 ∷ 0 ∷ 0 ∷ 0 ∷ 0 ∷ 2 ∷ 0 ∷ 0 ∷ [])
    ∷ chunk (0 ∷ 2 ∷ 1 ∷ 2 ∷ 255 ∷ 255 ∷ 255 ∷ 255 ∷ 0 ∷ 1 ∷ 0 ∷ 0 ∷ 0 ∷ 0 ∷ 255 ∷ 255 ∷ [])
    ∷ []

two_rows_are : All IsRow two_rows
two_rows_are = ((omega arith, (omega arith, (tt, tt))), ((omega arith, (omega arith, tt)), tt))

three_chunks_are : AreChunks three_chunks
three_chunks_are = tt

three_chunks_deliver : delivered three_chunks ≡ file_bytes two_rows
unfolding open_writer rows_bytes row_bytes fields_bytes field_bytes write_be
three_chunks_deliver = refl

read_rows-written_example :
    (written two_rows ≡ ok (file_bytes two_rows))
    × ((r : Reader) × (open_reader three_chunks true ≡ ok r)
        × (read_rows (suc (length two_rows)) r ≡ ok (map row_of_values two_rows)))
read_rows-written_example =
    read_rows-written two_rows three_chunks two_rows_are three_chunks_are three_chunks_deliver
