-- ===== src/Buffers/Flush.antt =====
-- What a flush writes when every COPY commits.
use gpsxdb.Prelude.{ℕ, ◌+◌, ◌≡◌, sym, ap, ◌∙◌, List, [], ◌∷◌, ◌++◌, append-nil, append_assoc}
use gpsxdb.Buffers.{
  Record, TagRecord, Copied, committed, Sink, ok, copy_batch, finalize_tags, flush_via_temp,
  flush_node_sink,
}
use gpsxdb.Buffers.Insert.{push}

-- No tags wait without a row.
abbrev pub TagsFollow : List Record → List TagRecord → Type 0
TagsFollow [] [] = Unit
TagsFollow [] (t ∷ ts) = ⊥
TagsFollow (r ∷ buf) ts = Unit

-- All that was inserted stands in the tables or waits in the buffers, in its order.
pub record IsSink (s : Sink) (rows : List Record) (tags : List TagRecord) : Type 0 where
  pub all_rows : s.rows ++ s.buf ≡ rows
  pub all_tags : s.tag_rows ++ s.tag_buf ≡ tags
  pub follow : TagsFollow s.buf s.tag_buf

-- All of it stands in the tables.
abbrev pub flushed : List Record → List TagRecord → Sink
flushed rows tags = record { rows = rows; tag_rows = tags; buf = []; tag_buf = [] }

pub flushed-IsSink :
    (rows : List Record) (tags : List TagRecord) → IsSink (flushed rows tags) rows tags
flushed-IsSink rows tags = record {
  all_rows = append-nil rows;
  all_tags = append-nil tags;
  follow = tt;
}

append-TagsFollow :
    (buf : List Record) (r : Record) (ts : List TagRecord) → TagsFollow (buf ++ (r ∷ [])) ts
append-TagsFollow [] r ts = tt
append-TagsFollow (q ∷ buf) r ts = tt

pub push-IsSink :
    (s : Sink) (r : Record) (ts : List TagRecord) (rows : List Record) (tags : List TagRecord)
    → IsSink s rows tags
    → IsSink (push s r ts) (rows ++ (r ∷ [])) (tags ++ ts)
push-IsSink s r ts rows tags h = record {
  all_rows = sym (append_assoc s.rows s.buf (r ∷ [])) ∙ ap (λ l. l ++ (r ∷ [])) h.all_rows;
  all_tags = sym (append_assoc s.tag_rows s.tag_buf ts) ∙ ap (λ l. l ++ ts) h.all_tags;
  follow = append-TagsFollow s.buf r (s.tag_buf ++ ts);
}

module _ (copy : ℕ → Copied) (all : (n : ℕ) → copy n ≡ committed) where
  finalize_tags-committed :
      (rows : List Record) (tag_rows : List TagRecord) (buf : List Record)
      (tag_buf : List TagRecord) (n : ℕ)
      → (m : ℕ) × (finalize_tags copy
            (record { rows = rows; tag_rows = tag_rows; buf = buf; tag_buf = tag_buf }, n)
          ≡ ok (record { rows = rows; tag_rows = tag_rows ++ tag_buf; buf = buf; tag_buf = [] }, m))
  unfolding finalize_tags
  finalize_tags-committed rows tag_rows buf [] n = (n, rw (append-nil tag_rows))
  finalize_tags-committed rows tag_rows buf (t ∷ ts) n = (n + 1, rw (all n, finalize_tags))

  flush_via_temp-committed :
      (rows : List Record) (tag_rows : List TagRecord) (buf : List Record)
      (tag_buf : List TagRecord) (n : ℕ)
      → TagsFollow buf tag_buf
      → (m : ℕ) × (flush_via_temp copy
            (record { rows = rows; tag_rows = tag_rows; buf = buf; tag_buf = tag_buf }, n)
          ≡ ok (flushed (rows ++ buf) (tag_rows ++ tag_buf), m))
  unfolding flush_via_temp copy_batch
  flush_via_temp-committed rows tag_rows [] [] n h = (n, rw (append-nil rows, append-nil tag_rows))
  flush_via_temp-committed rows tag_rows [] (t ∷ ts) n h = absurd h
  flush_via_temp-committed rows tag_rows (r ∷ buf) tag_buf n h =
      let (m, e) = finalize_tags-committed (rows ++ (r ∷ buf)) tag_rows (r ∷ buf) tag_buf (n + 1) in
      (m, rw (all n, flush_via_temp, copy_batch, e))

  flush_node_sink-committed :
      (rows : List Record) (tag_rows : List TagRecord) (buf : List Record)
      (tag_buf : List TagRecord) (n : ℕ)
      → TagsFollow buf tag_buf
      → (m : ℕ) × (flush_node_sink copy
            (record { rows = rows; tag_rows = tag_rows; buf = buf; tag_buf = tag_buf }, n)
          ≡ ok (flushed (rows ++ buf) (tag_rows ++ tag_buf), m))
  unfolding flush_node_sink
  flush_node_sink-committed rows tag_rows [] [] n h = (n, rw (append-nil rows, append-nil tag_rows))
  flush_node_sink-committed rows tag_rows [] (t ∷ ts) n h = absurd h
  flush_node_sink-committed rows tag_rows (r ∷ buf) tag_buf n h =
      let (m, e) = finalize_tags-committed (rows ++ (r ∷ buf)) tag_rows (r ∷ buf) tag_buf (n + 1) in
      (m, rw (all n, flush_node_sink, e))

  -- A flush leaves nothing in the buffers.
  pub flush_via_temp-IsSink :
      (s : Sink) (n : ℕ) (rows : List Record) (tags : List TagRecord)
      → IsSink s rows tags
      → (m : ℕ) × (flush_via_temp copy (s, n) ≡ ok (flushed rows tags, m))
  flush_via_temp-IsSink s n rows tags h =
      let (m, e) = flush_via_temp-committed s.rows s.tag_rows s.buf s.tag_buf n h.follow in
      (m, e ∙ rw (h.all_rows, h.all_tags))

  pub flush_node_sink-IsSink :
      (s : Sink) (n : ℕ) (rows : List Record) (tags : List TagRecord)
      → IsSink s rows tags
      → (m : ℕ) × (flush_node_sink copy (s, n) ≡ ok (flushed rows tags, m))
  flush_node_sink-IsSink s n rows tags h =
      let (m, e) = flush_node_sink-committed s.rows s.tag_rows s.buf s.tag_buf n h.follow in
      (m, e ∙ rw (h.all_rows, h.all_tags))
