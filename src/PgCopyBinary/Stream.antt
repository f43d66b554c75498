-- ===== src/PgCopyBinary/Stream.antt =====
-- The buffer over the chunks: whatever the boundaries of the chunks are, the reader sees the bytes
-- that they deliver together.
use gpsxdb.Prelude.{
  ℕ, zero, suc, ◌+◌, ◌-◌, ◌≤◌, ◌<◌, ◌≡◌, refl, sym, ap, ◌∙◌, true, false, ltb, Bool-cases, inl, inr,
  List, [], ◌∷◌, ◌++◌, length, length-append, length-drop, take, drop, drop-drop, drop-append_self,
  take-append_self, append_assoc, get_or, arith,
}
use gpsxdb.Bytes.{Bytes}
use gpsxdb.PgCopyBinary.{Answer, chunk, failed, Reader, ok, fill_from, fill}

-- The bytes of the chunks.
abbrev pub delivered : List Answer → Bytes
delivered [] = []
delivered (chunk c ∷ as') = c ++ delivered as'
delivered (failed ∷ as') = delivered as'

abbrev pub AreChunks : List Answer → Type 0
AreChunks [] = Unit
AreChunks (chunk c ∷ as') = AreChunks as'
AreChunks (failed ∷ as') = ⊥

-- Between `mark` and `pos` stand `pre`, and `bs` is all that comes from `pos` on. The COPY is not
-- drained yet, and will end well.
pub record Holds (r : Reader) (pre bs : Bytes) : Type 0 where
  pub chunks : AreChunks r.answers
  pub place : r.pos ≡ r.mark + length pre
  pub within : r.pos ≤ length r.buf
  pub bytes : drop r.mark r.buf ++ delivered r.answers ≡ pre ++ bs
  pub opened : r.eof ≡ false
  pub fine : r.clean ≡ true

pub drop-append_le {ℓ} :
    {A : Type ℓ} (n : ℕ) (xs ys : List A) → n ≤ length xs → drop n (xs ++ ys) ≡ drop n xs ++ ys
drop-append_le zero xs ys h = refl
drop-append_le (suc n) [] ys h = absurd (omega arith)
drop-append_le (suc n) (x ∷ xs) ys h = drop-append_le n xs ys (omega arith)

pub take-append_le {ℓ} :
    {A : Type ℓ} (n : ℕ) (xs ys : List A) → n ≤ length xs → take n (xs ++ ys) ≡ take n xs
take-append_le zero xs ys h = refl
take-append_le (suc n) [] ys h = absurd (omega arith)
take-append_le (suc n) (x ∷ xs) ys h = ap (λ l. x ∷ l) (take-append_le n xs ys (omega arith))

pub get_or-append_lt {ℓ} :
    {A : Type ℓ} (xs ys : List A) (i : ℕ) (d : A)
    → i < length xs
    → get_or (xs ++ ys) i d ≡ get_or xs i d
get_or-append_lt [] ys i d h = absurd (omega arith)
get_or-append_lt (x ∷ xs) ys zero d h = refl
get_or-append_lt (x ∷ xs) ys (suc i) d h = get_or-append_lt xs ys i d (omega arith)

-- The reader has `need` bytes from `pos` on.
abbrev pub Has : Reader → ℕ → Type 0
Has r need = r.pos + need ≤ length r.buf

-- With the chunk appended, what stood before `mark` is gone.
abbrev after_chunk : Reader → List Answer → Bytes → Reader
after_chunk r as' c = record r {
  answers = as';
  buf = drop r.mark r.buf ++ c;
  pos = r.pos - r.mark;
  mark = 0;
}

after_chunk-Holds :
    (r : Reader) (as' : List Answer) (c pre bs : Bytes)
    → AreChunks as'
    → r.pos ≡ r.mark + length pre
    → r.pos ≤ length r.buf
    → drop r.mark r.buf ++ (c ++ delivered as') ≡ pre ++ bs
    → r.eof ≡ false
    → r.clean ≡ true
    → Holds (after_chunk r as' c) pre bs
after_chunk-Holds r as' c pre bs ch pl wi by op fi = record {
  chunks = ch;
  place = omega arith;
  within = omega (arith, length-append (drop r.mark r.buf) c, length-drop r.mark r.buf);
  bytes = append_assoc (drop r.mark r.buf) c (delivered as') ∙ by;
  opened = op;
  fine = fi;
}

sizes :
    (r : Reader) (pre bs : Bytes)
    → Holds r pre bs
    → length r.buf - r.mark + length (delivered r.answers) ≡ length pre + length bs
sizes r pre bs h = omega (
  arith,
  ap length h.bytes,
  length-append (drop r.mark r.buf) (delivered r.answers),
  length-append pre bs,
  length-drop r.mark r.buf,
)

fill_from-Holds :
    (as' : List Answer) (r : Reader) (need : ℕ) (pre bs : Bytes)
    → need ≤ length bs
    → Holds (record r { answers = as' }) pre bs
    → (t : Reader) × (fill_from as' r need ≡ ok t) × Holds t pre bs × Has t need
unfolding fill_from
fill_from-Holds [] r need pre bs enough h =
    let all_here : ltb (length r.buf - r.pos) need ≡ false =
      ground (arith, sizes (record r { answers = [] }) pre bs h) in
    (record r { answers = [] }, rw all_here, h, ground arith)
fill_from-Holds (failed ∷ as') r need pre bs enough h = absurd h.chunks
fill_from-Holds (chunk c ∷ as') r need pre bs enough h =
    elim (Bool-cases (ltb (length r.buf - r.pos) need)) [
      | inr e ↦ (record r { answers = chunk c ∷ as' }, rw (e, fill_from), h, ground arith)
      | inl e ↦
          let next = after_chunk r as' c in
          let (t, run, k, l) =
            fill_from-Holds as' (record next { answers = r.answers }) need pre bs enough
              (after_chunk-Holds r as' c pre bs h.chunks h.place h.within h.bytes h.opened
                h.fine) in
          (t, rw (e, fill_from) run, k, l)
    ]

-- `fill` succeeds while the stream has the bytes, wherever the chunks end.
pub fill-Holds :
    (r : Reader) (need : ℕ) (pre bs : Bytes)
    → need ≤ length bs
    → Holds r pre bs
    → (t : Reader) × (fill r need ≡ ok t) × Holds t pre bs × Has t need
unfolding fill
fill-Holds r need pre bs enough h = fill_from-Holds r.answers r need pre bs enough h

module _ (r : Reader) (pre bs : Bytes) (h : Holds r pre bs) where
  -- What is buffered from `pos` on begins the bytes that come.
  pub ahead : drop r.pos r.buf ++ delivered r.answers ≡ bs
  ahead =
      let same : drop (length pre) (drop r.mark r.buf) ≡ drop r.pos r.buf =
        sym (drop-drop r.buf r.mark (length pre)) ∙ ap (λ n. drop n r.buf) (sym h.place) in
      let room : length pre ≤ length (drop r.mark r.buf) =
        omega (arith, length-drop r.mark r.buf, h.place, h.within) in
      ap (λ l. l ++ delivered r.answers) (sym same)
      ∙ sym (drop-append_le (length pre) (drop r.mark r.buf) (delivered r.answers) room)
      ∙ ap (drop (length pre)) h.bytes
      ∙ drop-append_self pre bs

  -- `pos` moves over the next bytes.
  pub advance :
      (x rest : Bytes) (n : ℕ)
      → length x ≡ n
      → bs ≡ x ++ rest
      → Has r n
      → Holds (record r { pos = r.pos + n }) (pre ++ x) rest
  advance x rest n size e k = record {
    chunks = h.chunks;
    place = omega (arith, h.place, length-append pre x);
    within = k;
    bytes = h.bytes ∙ ap (λ l. pre ++ l) e ∙ sym (append_assoc pre x rest);
    opened = h.opened;
    fine = h.fine;
  }

  -- The bytes from `mark` to `pos`.
  pub taken : take (r.pos - r.mark) (drop r.mark r.buf) ≡ pre
  taken =
      let count : r.pos - r.mark ≡ length pre = omega (arith, h.place) in
      let room : length pre ≤ length (drop r.mark r.buf) =
        omega (arith, length-drop r.mark r.buf, h.place, h.within) in
      rw count (
        sym (take-append_le (length pre) (drop r.mark r.buf) (delivered r.answers) room)
        ∙ ap (take (length pre)) h.bytes
        ∙ take-append_self pre bs)
