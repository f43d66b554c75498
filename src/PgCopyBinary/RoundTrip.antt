-- ===== src/PgCopyBinary/RoundTrip.antt =====
-- A file of the writer, read back over any division into chunks.
use gpsxdb.Prelude.{
  ℕ, zero, suc, ◌+◌, ◌≤◌, ◌≡◌, refl, sym, ap, ◌∙◌, true, false, if◌then◌else◌, List, [], ◌∷◌, ◌++◌,
  map, length, length-append, length-drop, drop, ◌==◌, append_assoc, append-nil, none, some, All,
  arith,
}
use gpsxdb.Bytes.{Bytes}
use gpsxdb.PgCopyBinary.{
  Answer, Reader, Row, Result, ok, ◌>>=◌, signature, fill, open_reader, next, Writer, open_writer,
  write_row, close,
}
use gpsxdb.NodeFile.{same_bytes}
use gpsxdb.PgCopyBinary.Stream.{Holds, fill-Holds, advance, ahead, delivered, AreChunks}
use gpsxdb.PgCopyBinary.BigEndian.{write_be}
use gpsxdb.PgCopyBinary.Rows.{
  Value, IsRow, row_bytes, row_of_values, Ready, Holds-Ready, next-Ready, next-Ready_trailer,
}

-- The callers' loop: `next` until it returns no row.
pub read_rows : ℕ → Reader → Result (List Row)
read_rows zero r = ok []
read_rows (suc n) r = next r >>= λ (t, o). elim o [
  | none ↦ ok []
  | some row ↦ read_rows n t >>= (λ rows. ok (row ∷ rows))
]

pub write_rows : Writer → List Bytes → Result Writer
write_rows w [] = ok w
write_rows w (raw ∷ raws) = write_row w raw >>= λ t. write_rows t raws

unfoldable pub rows_bytes : List (List Value) → Bytes
rows_bytes [] = []
rows_bytes (vs ∷ rows) = row_bytes vs ++ rows_bytes rows

-- The bytes of a file with these rows: header, rows, trailer.
abbrev pub file_bytes : List (List Value) → Bytes
file_bytes rows = open_writer.out ++ (rows_bytes rows ++ (255 ∷ 255 ∷ []))

unfoldable pub written : List (List Value) → Result Bytes
written rows = write_rows open_writer (map row_bytes rows) >>= λ w. ok (close w).out

write_rows-eq :
    (rows : List (List Value)) (out : Bytes)
    → write_rows (record { out = out; closed = false }) (map row_bytes rows)
      ≡ ok (record { out = out ++ rows_bytes rows; closed = false })
unfolding write_rows rows_bytes write_row
write_rows-eq [] out = ap (λ l. ok (record { out = l; closed = false })) (sym (append-nil out))
write_rows-eq (vs ∷ rows) out =
    write_rows-eq rows (out ++ row_bytes vs)
    ∙ ap (λ l. ok (record { out = l; closed = false }))
        (append_assoc out (row_bytes vs) (rows_bytes rows))

written-eq : (rows : List (List Value)) → written rows ≡ ok (file_bytes rows)
unfolding written close open_writer
written-eq rows = rw (write_rows-eq rows open_writer.out)

read_rows_row :
    (n : ℕ) (r t : Reader) (row : Row) (rows : List Row)
    → next r ≡ ok (t, some row)
    → read_rows n t ≡ ok rows
    → read_rows (suc n) r ≡ ok (row ∷ rows)
unfolding read_rows
read_rows_row n r t row rows e e' = rw (e, e')

read_rows_end : (n : ℕ) (r t : Reader) → next r ≡ ok (t, none) → read_rows (suc n) r ≡ ok []
unfolding read_rows
read_rows_end n r t e = rw e

read_rows-Ready :
    (rows : List (List Value)) (r : Reader)
    → All IsRow rows
    → Ready r (rows_bytes rows ++ (255 ∷ 255 ∷ []))
    → read_rows (suc (length rows)) r ≡ ok (map row_of_values rows)
unfolding rows_bytes
read_rows-Ready [] r small h =
    let (t, run) = next-Ready_trailer r [] (unfold write_be in h) in read_rows_end 0 r t run
read_rows-Ready (vs ∷ rows) r small h =
    let (t, run, k) =
      next-Ready vs r (rows_bytes rows ++ (255 ∷ 255 ∷ [])) small.0 (rw append_assoc at h) in
    read_rows_row (suc (length rows)) r t (row_of_values vs) (map row_of_values rows) run
      (read_rows-Ready rows t small.1 k)

open_reader_step :
    (as' : List Answer) (s : Reader)
    → fill (record { answers = as'; clean = true; buf = []; pos = 0; mark = 0; eof = false }) 19
      ≡ ok s
    → same_bytes signature (drop s.pos s.buf) ≡ true
    → open_reader as' true ≡ ok (record s { pos = s.pos + 19 })
unfolding open_reader
open_reader_step as' s e e' = rw (e, e')

-- Only the bytes that are compared matter.
same_bytes-append :
    (magic xs ys : Bytes)
    → length magic ≤ length xs
    → same_bytes magic xs ≡ same_bytes magic (xs ++ ys)
unfolding same_bytes
same_bytes-append [] xs ys h = refl
same_bytes-append (m ∷ magic) [] ys h = absurd (omega arith)
same_bytes-append (m ∷ magic) (x ∷ xs) ys h =
    ap (λ b. if m == x then b else false) (same_bytes-append magic xs ys (omega arith))

same_bytes-header : (bs : Bytes) → same_bytes signature (open_writer.out ++ bs) ≡ true
unfolding same_bytes open_writer
same_bytes-header bs = refl

open_reader-Ready :
    (as' : List Answer) (bs : Bytes)
    → AreChunks as'
    → delivered as' ≡ open_writer.out ++ bs
    → (r : Reader) × (open_reader as' true ≡ ok r) × Ready r bs
open_reader-Ready as' bs ch e =
    let first : Reader = record {
      answers = as';
      clean = true;
      buf = [];
      pos = 0;
      mark = 0;
      eof = false;
    } in
    let start : Holds first [] (open_writer.out ++ bs) = record {
      chunks = ch;
      place = omega arith;
      within = omega arith;
      bytes = e;
      opened = refl;
      fine = refl;
    } in
    let header : length open_writer.out ≡ 19 = (unfold open_writer in refl) in
    let (s, run, held, has) =
      fill-Holds first 19 [] (open_writer.out ++ bs)
        (omega (arith, length-append open_writer.out bs, header)) start in
    let first_bytes : same_bytes signature (drop s.pos s.buf) ≡ true =
      same_bytes-append signature (drop s.pos s.buf) (delivered s.answers)
        (omega (arith, length-drop s.pos s.buf))
      ∙ ap (same_bytes signature) (ahead s [] (open_writer.out ++ bs) held)
      ∙ same_bytes-header bs in
    (
      record s { pos = s.pos + 19 },
      open_reader_step as' s run first_bytes,
      Holds-Ready (record s { pos = s.pos + 19 }) open_writer.out bs
          (advance s [] (open_writer.out ++ bs) held open_writer.out bs 19 header refl has),
    )

-- Rows that the server can send are written to a file, and read back from it exactly, each with its
-- own bytes and the views of its values, wherever the file is divided into the chunks that libpq
-- delivers; then the reader reports the end.
pub read_rows-written :
    (rows : List (List Value)) (answers : List Answer)
    → All IsRow rows
    → AreChunks answers
    → delivered answers ≡ file_bytes rows
    → (written rows ≡ ok (file_bytes rows))
      × ((r : Reader) × (open_reader answers true ≡ ok r)
          × (read_rows (suc (length rows)) r ≡ ok (map row_of_values rows)))
read_rows-written rows answers small ch e =
    let (r, run, h) = open_reader-Ready answers (rows_bytes rows ++ (255 ∷ 255 ∷ [])) ch e in
    (written-eq rows, (r, run, read_rows-Ready rows r small h))
