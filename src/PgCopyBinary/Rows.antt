-- ===== src/PgCopyBinary/Rows.antt =====
-- Rows as the server sends them, and what `next` makes of them.
use gpsxdb.Prelude.{
  ℕ, suc, ◌+◌, ◌-◌, ◌^◌, ◌≤◌, ◌<◌, ◌≡◌, refl, ap, ◌∙◌, true, false, leb, ◌==◌, List, [], ◌∷◌, ◌++◌,
  length, length-append, drop, append_assoc, append-nil, Option, none, some, All, arith,
}
use gpsxdb.Bytes.{Bytes}
use gpsxdb.PgCopyBinary.{
  Reader, Field, null, view, Row, ok, Answer, chunk, failed, fill, read_be, next_field, next_fields,
  next, row_of, finish, drain,
}
use gpsxdb.PgCopyBinary.Stream.{Holds, fill-Holds, advance, taken, ahead, delivered, AreChunks}
use gpsxdb.PgCopyBinary.BigEndian.{write_be, length-write_be, read_be-Holds, read_be-write_be}

-- The value of a column, if it is not NULL.
abbrev pub Value : Type 0
Value = Option Bytes

unfoldable pub field_bytes : Value → Bytes
field_bytes none = write_be 4 (2 ^ 32 - 1)
field_bytes (some b) = write_be 4 (length b) ++ b

unfoldable pub fields_bytes : List Value → Bytes
fields_bytes [] = []
fields_bytes (v ∷ vs) = field_bytes v ++ fields_bytes vs

unfoldable pub row_bytes : List Value → Bytes
row_bytes vs = write_be 2 (length vs) ++ fields_bytes vs

abbrev pub IsValue : Value → Type 0
IsValue none = Unit
IsValue (some b) = length b < 2 ^ 31

abbrev pub IsRow : List Value → Type 0
IsRow vs = (length vs < 2 ^ 15) × All IsValue vs

-- The view of a value whose field starts at an offset.
abbrev pub view_of : ℕ → Value → Field
view_of offset none = null
view_of offset (some b) = view (offset + 4) (length b)

abbrev pub views_of : ℕ → List Value → List Field
views_of offset [] = []
views_of offset (v ∷ vs) = view_of offset v ∷ views_of (offset + length (field_bytes v)) vs

Holds-assoc :
    (r : Reader) (pre x y rest : Bytes)
    → Holds r pre ((x ++ y) ++ rest)
    → Holds r pre (x ++ (y ++ rest))
Holds-assoc r pre x y rest h = rw append_assoc at h

Holds-regroup :
    (r : Reader) (pre x y rest : Bytes)
    → Holds r ((pre ++ x) ++ y) rest
    → Holds r (pre ++ (x ++ y)) rest
Holds-regroup r pre x y rest h = rw append_assoc at h

Holds-nil : (r : Reader) (pre rest : Bytes) → Holds r pre rest → Holds r (pre ++ []) rest
Holds-nil r pre rest h = rw append-nil h

next_fields_step :
    (n : ℕ) (r s t : Reader) (f : Field) (fs : List Field)
    → next_field r ≡ ok (s, f)
    → next_fields n s ≡ ok (t, fs)
    → next_fields (suc n) r ≡ ok (t, f ∷ fs)
unfolding next_fields
next_fields_step n r s t f fs e e' = rw (e, e')

-- A word comes next: it is buffered, read, and passed over.
word-Holds :
    (k v : ℕ) (r : Reader) (pre rest : Bytes)
    → v < 256 ^ k
    → Holds r pre (write_be k v ++ rest)
    → (s : Reader) × (fill r k ≡ ok s)
      × (read_be k s.buf s.pos ≡ v)
      × Holds (record s { pos = s.pos + k }) (pre ++ write_be k v) rest
word-Holds k v r pre rest small h =
    let word = write_be k v in
    let size : length word ≡ k = length-write_be k v in
    let (s, run, held, has) =
      fill-Holds r k pre (word ++ rest) (omega (arith, length-append word rest, size)) h in
    (
      s,
      run,
      read_be-Holds k s pre (word ++ rest) held has ∙ read_be-write_be k v rest small,
      advance s pre (word ++ rest) held word rest k size refl has,
    )

next_field_null :
    (r s : Reader)
    → fill r 4 ≡ ok s
    → read_be 4 s.buf s.pos ≡ 2 ^ 32 - 1
    → next_field r ≡ ok (record s { pos = s.pos + 4 }, null)
unfolding next_field
next_field_null r s run len = rw (run, len)

next_field-view :
    (r s t : Reader) (n : ℕ)
    → n < 2 ^ 31
    → fill r 4 ≡ ok s
    → read_be 4 s.buf s.pos ≡ n
    → fill (record s { pos = s.pos + 4 }) n ≡ ok t
    → next_field r ≡ ok (record t { pos = t.pos + n }, view (t.pos - t.mark) n)
unfolding next_field
next_field-view r s t n small run len run' =
    let (not_null, positive) : ((n == 2 ^ 32 - 1) ≡ false) × (leb (2 ^ 31) n ≡ false) =
      ground arith in
    rw (run, len, not_null, positive, run')

next_field-Holds :
    (v : Value) (r : Reader) (pre rest : Bytes)
    → IsValue v
    → Holds r pre (field_bytes v ++ rest)
    → (t : Reader) × (next_field r ≡ ok (t, view_of (length pre) v))
      × Holds t (pre ++ field_bytes v) rest
unfolding field_bytes
next_field-Holds none r pre rest small h =
    let (s, run, len, held) = word-Holds 4 (2 ^ 32 - 1) r pre rest (omega arith) h in
    (record s { pos = s.pos + 4 }, next_field_null r s run len, held)
next_field-Holds (some b) r pre rest small h =
    let word = write_be 4 (length b) in
    let (s, run, len, held) =
      word-Holds 4 (length b) r pre (b ++ rest) (omega arith) (Holds-assoc r pre word b rest h) in
    let (t, run', held', has) =
      fill-Holds (record s { pos = s.pos + 4 }) (length b) (pre ++ word) (b ++ rest)
        (omega (arith, length-append b rest)) held in
    let offset : t.pos - t.mark ≡ length pre + 4 =
      omega (arith, held'.place, length-append pre word, length-write_be 4 (length b)) in
    (
      record t { pos = t.pos + length b },
      next_field-view r s t (length b) small run len run'
          ∙ ap (λ o. ok (record t { pos = t.pos + length b }, view o (length b))) offset,
      Holds-regroup (record t { pos = t.pos + length b }) pre word b rest
          (advance t (pre ++ word) (b ++ rest) held' b rest (length b) refl refl has),
    )

next_fields-Holds :
    (vs : List Value) (r : Reader) (pre rest : Bytes)
    → All IsValue vs
    → Holds r pre (fields_bytes vs ++ rest)
    → (t : Reader) × (next_fields (length vs) r ≡ ok (t, views_of (length pre) vs))
      × Holds t (pre ++ fields_bytes vs) rest
unfolding next_fields fields_bytes
next_fields-Holds [] r pre rest small h = (r, refl, Holds-nil r pre rest h)
next_fields-Holds (v ∷ vs) r pre rest small h =
    let (s, run, held) =
      next_field-Holds v r pre (fields_bytes vs ++ rest) small.0
        (Holds-assoc r pre (field_bytes v) (fields_bytes vs) rest h) in
    let (t, run', held') = next_fields-Holds vs s (pre ++ field_bytes v) rest small.1 held in
    (
      t,
      next_fields_step (length vs) r s t (view_of (length pre) v)
          (views_of (length pre + length (field_bytes v)) vs) run
          (run' ∙ ap (λ n. ok (t, views_of n vs)) (length-append pre (field_bytes v))),
      Holds-regroup t pre (field_bytes v) (fields_bytes vs) rest held',
    )

-- The reader stands before `bs`.
pub record Ready (r : Reader) (bs : Bytes) : Type 0 where
  pub chunks : AreChunks r.answers
  pub within : r.pos ≤ length r.buf
  pub bytes : drop r.pos r.buf ++ delivered r.answers ≡ bs
  pub opened : r.eof ≡ false
  pub fine : r.clean ≡ true

pub start-Holds : (r : Reader) (bs : Bytes) → Ready r bs → Holds (record r { mark = r.pos }) [] bs
start-Holds r bs h = record {
  chunks = h.chunks;
  place = omega arith;
  within = h.within;
  bytes = h.bytes;
  opened = h.opened;
  fine = h.fine;
}

pub Holds-Ready : (r : Reader) (pre bs : Bytes) → Holds r pre bs → Ready r bs
Holds-Ready r pre bs h = record {
  chunks = h.chunks;
  within = h.within;
  bytes = ahead r pre bs h;
  opened = h.opened;
  fine = h.fine;
}

-- A row whose values are `vs`, with the views into its bytes.
abbrev pub row_of_values : List Value → Row
row_of_values vs = record { raw = row_bytes vs; fields = views_of 2 vs }

next_row :
    (r s t : Reader) (n : ℕ) (fs : List Field)
    → n < 2 ^ 15
    → fill (record r { mark = r.pos }) 2 ≡ ok s
    → read_be 2 s.buf s.pos ≡ n
    → next_fields n (record s { pos = s.pos + 2 }) ≡ ok (t, fs)
    → next r ≡ ok (t, some (row_of t fs))
unfolding next
next_row r s t n fs small run len run' =
    let (no_trailer, positive) : ((n == 2 ^ 16 - 1) ≡ false) × (leb (2 ^ 15) n ≡ false) =
      ground arith in
    rw (run, len, no_trailer, positive, run')

row_of-Holds :
    (t : Reader) (pre rest : Bytes) (fs : List Field)
    → Holds t pre rest
    → row_of t fs ≡ record { raw = pre; fields = fs }
unfolding row_of
row_of-Holds t pre rest fs h = ap (λ raw. record { raw = raw; fields = fs }) (taken t pre rest h)

-- With a row before it, the reader returns its bytes and the views of its values, and stands behind.
pub next-Ready :
    (vs : List Value) (r : Reader) (rest : Bytes)
    → IsRow vs
    → Ready r (row_bytes vs ++ rest)
    → (t : Reader) × (next r ≡ ok (t, some (row_of_values vs))) × Ready t rest
unfolding row_bytes
next-Ready vs r rest small h =
    let count = length vs in
    let word = write_be 2 count in
    let (s, run, len, held) =
      word-Holds 2 count (record r { mark = r.pos }) [] (fields_bytes vs ++ rest)
        (omega (arith, small.0))
        (Holds-assoc _ [] word (fields_bytes vs) rest (start-Holds r (row_bytes vs ++ rest) h)) in
    let (t, run', held') =
      next_fields-Holds vs (record s { pos = s.pos + 2 }) word rest small.1 held in
    (
      t,
      next_row r s t count (views_of (length word) vs) small.0 run len run'
          ∙ ap (λ w. ok (t, some w))
              (row_of-Holds t (word ++ fields_bytes vs) rest _ held'
                ∙ ap (λ n. record { raw = row_bytes vs; fields = views_of n vs })
                    (length-write_be 2 count)),
      Holds-Ready t (word ++ fields_bytes vs) rest held',
    )

drain-AreChunks : (as' : List Answer) → AreChunks as' → drain as' ≡ true
unfolding drain
drain-AreChunks [] h = refl
drain-AreChunks (chunk c ∷ as') h = drain-AreChunks as' h
drain-AreChunks (failed ∷ as') h = absurd h

next_trailer :
    (r s : Reader)
    → fill (record r { mark = r.pos }) 2 ≡ ok s
    → read_be 2 s.buf s.pos ≡ 2 ^ 16 - 1
    → s.eof ≡ false
    → drain s.answers ≡ true
    → s.clean ≡ true
    → next r ≡ ok (record s { answers = []; pos = s.pos + 2; eof = true }, none)
unfolding next finish
next_trailer r s run len eof all clean = rw (run, len, eof, all, clean)

-- At the trailer the reader drains the connection and returns no row.
pub next-Ready_trailer :
    (r : Reader) (rest : Bytes)
    → Ready r (write_be 2 (2 ^ 16 - 1) ++ rest)
    → (t : Reader) × (next r ≡ ok (t, none))
next-Ready_trailer r rest h =
    let (s, run, len, held) =
      word-Holds 2 (2 ^ 16 - 1) (record r { mark = r.pos }) [] rest (omega arith)
        (start-Holds r _ h) in
    (_, next_trailer r s run len held.opened (drain-AreChunks s.answers held.chunks) held.fine)
