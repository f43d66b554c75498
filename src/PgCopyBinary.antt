-- ===== src/PgCopyBinary.antt =====
-- src/PgCopyBinary.cpp: streams of COPY BINARY. What libpq delivers is a parameter: the list of the
-- answers of `PQgetCopyData`, whose end is the answer -1, and whether `PQgetResult` reports success.
-- The writer's file is the list of its bytes; opening, writing and closing it succeed.
pub mod Stream
pub mod BigEndian
pub mod Rows
pub mod RoundTrip
mod Tests
use gpsxdb.Prelude.{
  ℕ, zero, suc, ◌+◌, ◌-◌, ◌*◌, ◌^◌, Bool, true, false, not, ltb, leb, ◌==◌, if◌then◌else◌, List, [],
  ◌∷◌, ◌++◌, length, take, drop, get_or, Option, none, some,
}
use gpsxdb.Prelude.Int.{ℤ}
use gpsxdb.Bytes.{Bytes}
use gpsxdb.Bytes.Signed.{to_i64}
use gpsxdb.NodeFile.{same_bytes}

-- An answer of `PQgetCopyData`: a chunk, or the error -2.
pub data Answer : Type 0 where
  chunk : Bytes → Answer
  failed : Answer

pub data CopyError : Type 0 where
  ended_mid_row get_failed bad_header negative_count negative_length not_clean : CopyError
  not_bigint write_after_close : CopyError

pub data Result {ℓ} (A : Type ℓ) : Type ℓ where
  ok : A → Result A
  err : CopyError → Result A

infixl 5 ◌>>=◌
abbrev pub ◌>>=◌ {ℓ κ} : {A : Type ℓ} {B : Type κ} → Result A → (A → Result B) → Result B
ok a >>= f = f a
err e >>= f = err e

pub record Reader : Type 0 where
  pub answers : List Answer
  pub clean : Bool
  pub buf : Bytes
  pub pos : ℕ
  pub mark : ℕ
  pub eof : Bool

-- "PGCOPY\n\377\r\n\0"
abbrev pub signature : Bytes
signature = b'P' ∷ b'G' ∷ b'C' ∷ b'O' ∷ b'P' ∷ b'Y' ∷ 10 ∷ 255 ∷ 13 ∷ 10 ∷ 0 ∷ []

-- The loop of `fill` over the answers that are left: what stands before `mark` is dropped, and the
-- chunk appended.
pub fill_from : List Answer → Reader → ℕ → Result Reader
fill_from [] r need =
    if ltb (length r.buf - r.pos) need then err ended_mid_row else ok (record r { answers = [] })
fill_from (a ∷ as') r need = elim (ltb (length r.buf - r.pos) need) [
  | false ↦ ok (record r { answers = a ∷ as' })
  | true ↦ elim a [
    | failed ↦ err get_failed
    | chunk c ↦
        fill_from as' (record r { buf = drop r.mark r.buf ++ c; pos = r.pos - r.mark; mark = 0 })
          need
  ]
]

pub fill : Reader → ℕ → Result Reader
fill r need = fill_from r.answers r need

-- The constructor, once the COPY has begun.
pub open_reader : List Answer → Bool → Result Reader
open_reader answers clean =
    fill (record { answers = answers; clean = clean; buf = []; pos = 0; mark = 0; eof = false }) 19
    >>= λ r.
        if same_bytes signature (drop r.pos r.buf)
        then ok (record r { pos = r.pos + 19 })
        else err bad_header

-- The answers up to the first that is no chunk; whether that is an error.
pub drain : List Answer → Bool
drain [] = true
drain (failed ∷ as') = false
drain (chunk c ∷ as') = drain as'

unfoldable pub finish : Reader → Result Reader
finish r =
    if r.eof
    then ok r
    else if not (drain r.answers)
    then err get_failed
    else if r.clean
    then ok (record r { answers = []; eof = true })
    else err not_clean

-- `k` bytes from `pos` on, the highest first.
pub read_be : ℕ → Bytes → ℕ → ℕ
read_be zero bs pos = 0
read_be (suc k) bs pos = get_or bs pos 0 * 256 ^ k + read_be k bs (pos + 1)

-- A field is a view into the row's bytes: its offset and its length.
pub data Field : Type 0 where
  null : Field
  view : ℕ → ℕ → Field

pub record Row : Type 0 where
  pub raw : Bytes
  pub fields : List Field

-- One round of the loop over the fields. A length is an `int32_t`, -1 for NULL.
pub next_field : Reader → Result (Reader × Field)
next_field r0 = fill r0 4 >>= λ r.
    let flen = read_be 4 r.buf r.pos in
    let r1 : Reader = record r { pos = r.pos + 4 } in
    if flen == 2 ^ 32 - 1
    then ok (r1, null)
    else if leb (2 ^ 31) flen
    then err negative_length
    else fill r1 flen >>= λ r2. ok (record r2 { pos = r2.pos + flen }, view (r2.pos - r2.mark) flen)

pub next_fields : ℕ → Reader → Result (Reader × List Field)
next_fields zero r = ok (r, [])
next_fields (suc n) r =
    next_field r >>= λ rf. next_fields n rf.0 >>= λ rest. ok (rest.0, rf.1 ∷ rest.1)

-- The row's bytes are copied out of the buffer.
pub row_of : Reader → List Field → Row
row_of r fields = record { raw = take (r.pos - r.mark) (drop r.mark r.buf); fields = fields }

-- `next`: the count of fields is an `int16_t`, -1 for the trailer.
pub next : Reader → Result (Reader × Option Row)
next r0 = fill (record r0 { mark = r0.pos }) 2 >>= λ r.
    let count = read_be 2 r.buf r.pos in
    let r1 : Reader = record r { pos = r.pos + 2 } in
    if count == 2 ^ 16 - 1
    then finish r1 >>= (λ r2. ok (r2, none))
    else if leb (2 ^ 15) count
    then err negative_count
    else next_fields count r1 >>= (λ rest. ok (rest.0, some (row_of rest.0 rest.1)))

-- `readBigintBE` on a field of a row.
unfoldable pub read_bigint_be : Row → Field → Result ℤ
read_bigint_be row null = err not_bigint
read_bigint_be row (view offset len) =
    if len == 8 then ok (to_i64 (read_be 8 row.raw offset)) else err not_bigint

pub record Writer : Type 0 where
  pub out : Bytes
  pub closed : Bool

pub open_writer : Writer
open_writer = record { out = signature ++ (0 ∷ 0 ∷ 0 ∷ 0 ∷ 0 ∷ 0 ∷ 0 ∷ 0 ∷ []); closed = false }

pub write_row : Writer → Bytes → Result Writer
write_row w raw = if w.closed then err write_after_close else ok (record w { out = w.out ++ raw })

pub close : Writer → Writer
close w = if w.closed then w else record { out = w.out ++ (255 ∷ 255 ∷ []); closed = true }
