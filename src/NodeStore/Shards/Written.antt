-- ===== src/NodeStore/Shards/Written.antt =====
-- What the inserts of a session leave in the shard files.
use gpsxdb.Prelude.{
  ℕ, ◌+◌, ◌/◌, ◌≡◌, refl, sym, ◌∙◌, ap, subst, Bool, true, false, leb, ◌==◌, ==_iff, if◌then◌else◌,
  Bool-cases, inl, inr, List, [], ◌∷◌, ◌++◌, append_assoc, append-nil, length,
}
use gpsxdb.Prelude.Int.{ℤ, pos}
use gpsxdb.Bytes.{Bytes}
use gpsxdb.Bytes.Signed.{to_size}
use gpsxdb.Wkb.Encode.{concat}
use gpsxdb.NodeStore.Shards.{
  Lz4, ShardWriter, Shards, chunk_size, grow_bitmap, open_shard, flush_inbuf, close_writer,
  insert_into, insert,
}
use gpsxdb.NodeStore.Shards.Entries.{Entry, entry_bytes, entries_bytes}

-- A shard's number with the entry that is inserted there.
abbrev pub Session : Type 0
Session = List (ℕ × Entry)

-- The entries of a shard, in their order.
abbrev pub inserted_in : ℕ → Session → List Entry
inserted_in i [] = []
inserted_in i ((shard, e) ∷ session) =
    let rest = inserted_in i session in if i == shard then e ∷ rest else rest

concat-append : (xs ys : List Bytes) → concat (xs ++ ys) ≡ concat xs ++ concat ys
unfolding concat
concat-append [] ys = refl
concat-append (x ∷ xs) ys = rw (concat-append xs ys) (sym (append_assoc x (concat xs) (concat ys)))

entries_bytes-append :
    (es fs : List Entry) → entries_bytes (es ++ fs) ≡ entries_bytes es ++ entries_bytes fs
entries_bytes-append [] fs = refl
entries_bytes-append (e ∷ es) fs =
    rw (entries_bytes-append es fs)
      (sym (append_assoc (entry_bytes e) (entries_bytes es) (entries_bytes fs)))

module _ {C : Type 0} (lz4 : Lz4 C) where
  -- The bytes of a frame from a context on, with these inputs to come.
  abbrev pub frame_from : C → List Bytes → Bytes
  frame_from ctx [] = lz4.end ctx
  frame_from ctx (c ∷ cs) = (lz4.update ctx c).1 ++ frame_from (lz4.update ctx c).0 cs

  abbrev pub frame : List Bytes → Bytes
  frame cs = lz4.begin.1 ++ frame_from lz4.begin.0 cs

  -- What LZ4 promises: a frame is decompressed to what was compressed, in outputs of any lengths.
  abbrev pub IsLossless : Type 0
  IsLossless = (cs : List Bytes) → concat (lz4.decompress (frame cs)) ≡ concat cs

  -- An open shard, in which the entries are written or wait in the buffer.
  abbrev IsWritten : List Entry → ShardWriter C → Type 0
  IsWritten es s =
      (s.is_open ≡ true)
      × ((cs : List Bytes) × ((ds : List Bytes) → s.out ++ frame_from s.ctx ds ≡ frame (cs ++ ds))
          × (concat cs ++ s.inbuf ≡ entries_bytes es))

  open_shard-IsWritten : IsWritten [] (open_shard lz4)
  unfolding open_shard concat
  open_shard-IsWritten = (refl, ([], λ ds. refl, refl))

  flush_inbuf-IsWritten :
      (es : List Entry) (s : ShardWriter C)
      → IsWritten es s
      → IsWritten es (flush_inbuf lz4 s) × ((flush_inbuf lz4 s).inbuf ≡ [])
  unfolding flush_inbuf concat
  flush_inbuf-IsWritten es s (o, (cs, out, h)) =
      elim s.inbuf
          as (λ x.
            s.inbuf ≡ x → IsWritten es (flush_inbuf lz4 s) × ((flush_inbuf lz4 s).inbuf ≡ [])) [
              | [] ↦ λ e. rw (e, flush_inbuf) ((o, (cs, out, h)), e)
              | b ∷ bs ↦ λ e.
                  let c = b ∷ bs in
                  let outs : (ds : List Bytes)
                      → (s.out ++ (lz4.update s.ctx c).1) ++ frame_from (lz4.update s.ctx c).0 ds
                        ≡ frame ((cs ++ (c ∷ [])) ++ ds) =
                    (λ ds.
                      append_assoc s.out (lz4.update s.ctx c).1
                        (frame_from (lz4.update s.ctx c).0 ds)
                      ∙ out (c ∷ ds)
                      ∙ ap frame (sym (append_assoc cs (c ∷ []) ds))) in
                  let held : concat (cs ++ (c ∷ [])) ++ [] ≡ entries_bytes es =
                    append-nil (concat (cs ++ (c ∷ [])))
                    ∙ concat-append cs (c ∷ [])
                    ∙ ap (λ x. concat cs ++ x) (append-nil c ∙ sym e)
                    ∙ h in
                  rw (e, flush_inbuf) ((o, (cs ++ (c ∷ []), outs, held)), refl)
            ]
        refl

  grow_bitmap-IsWritten :
      (es : List Entry) (s : ShardWriter C) (id : ℤ)
      → IsWritten es s
      → IsWritten es (grow_bitmap s id)
  unfolding grow_bitmap
  grow_bitmap-IsWritten es s id h = elim (Bool-cases (leb (to_size id / 8 + 1) s.bm_size)) [
    | inl e ↦ rw (e, grow_bitmap) h
    | inr e ↦ rw (e, grow_bitmap) h
  ]

  buffered-IsWritten :
      (es : List Entry) (s : ShardWriter C) (e : Entry)
      → IsWritten es s
      → IsWritten (es ++ (e ∷ [])) (record s { inbuf = s.inbuf ++ entry_bytes e })
  buffered-IsWritten es s e (o, (cs, out, h)) = (
    o,
    (
      cs,
      out,
      sym (append_assoc (concat cs) s.inbuf (entry_bytes e))
          ∙ rw h (
              sym (
                entries_bytes-append es (e ∷ [])
                ∙ ap (λ x. entries_bytes es ++ x) (append-nil (entry_bytes e)))),
    ),
  )

  flush_if-IsWritten :
      (b : Bool) (es : List Entry) (s : ShardWriter C)
      → IsWritten es s
      → IsWritten es (if b then flush_inbuf lz4 s else s)
  flush_if-IsWritten true es s h = (flush_inbuf-IsWritten es s h).0
  flush_if-IsWritten false es s h = h

  insert_into-IsWritten :
      (es : List Entry) (s : ShardWriter C) (e : Entry)
      → IsWritten es s
      → IsWritten (es ++ (e ∷ [])) (insert_into lz4 s (pos e.0) e.1)
  unfolding insert_into
  insert_into-IsWritten es s (n, p) h =
      let s1 = grow_bitmap s (pos n) in
      let s2 = record s1 { inbuf = s1.inbuf ++ entry_bytes (n, p) } in
      flush_if-IsWritten (leb chunk_size (length s2.inbuf)) (es ++ ((n, p) ∷ [])) s2
        (buffered-IsWritten es s1 (n, p) (grow_bitmap-IsWritten es s (pos n) h))

  -- The file of a shard that is closed.
  close_writer-frame :
      (es : List Entry) (s : ShardWriter C)
      → IsWritten es s
      → (cs : List Bytes) × ((close_writer lz4 s).out ≡ frame cs) × (concat cs ≡ entries_bytes es)
  unfolding close_writer
  close_writer-frame es s h =
      let ((o, (cs, out, k)), e) = flush_inbuf-IsWritten es s h in
      (
        cs,
        rw (h.0, close_writer) (out [] ∙ ap frame (append-nil cs)),
        sym (append-nil (concat cs)) ∙ ap (λ x. concat cs ++ x) (sym e) ∙ k,
      )

  pub insert_all : Session → Shards C → Shards C
  insert_all [] shards = shards
  insert_all ((shard, (n, p)) ∷ session) shards =
      insert_all session (insert lz4 shards shard (pos n) p)

  insert-IsWritten :
      (es : ℕ → List Entry) (shards : Shards C) (shard : ℕ) (e : Entry)
      → ((i : ℕ) → IsWritten (es i) (shards i))
      → (i : ℕ)
      → IsWritten
          (es i ++ inserted_in i ((shard, e) ∷ []))
          (insert lz4 shards shard (pos e.0) e.1 i)
  unfolding insert
  insert-IsWritten es shards shard e h i = elim (Bool-cases (i == shard)) [
    | inl b ↦
        let same : i ≡ shard = (==_iff i shard).0 b in
        rw (b, same) (insert_into-IsWritten (es shard) (shards shard) e (h shard))
    | inr b ↦ rw (b, append-nil (es i)) (h i)
  ]

  inserted_in-append :
      (i shard : ℕ) (e : Entry) (session : Session)
      → inserted_in i ((shard, e) ∷ []) ++ inserted_in i session
        ≡ inserted_in i ((shard, e) ∷ session)
  inserted_in-append i shard e session = elim (Bool-cases (i == shard)) [
    | inl b ↦ rw b
    | inr b ↦ rw b
  ]

  insert_all-IsWritten :
      (session : Session) (es : ℕ → List Entry) (shards : Shards C)
      → ((i : ℕ) → IsWritten (es i) (shards i))
      → (i : ℕ) → IsWritten (es i ++ inserted_in i session) (insert_all session shards i)
  unfolding insert_all
  insert_all-IsWritten [] es shards h i = rw (append-nil (es i)) (h i)
  insert_all-IsWritten ((shard, (n, p)) ∷ session) es shards h i =
      let more : ℕ → List Entry = (λ j. es j ++ inserted_in j ((shard, (n, p)) ∷ [])) in
      subst (λ x. IsWritten x (insert_all ((shard, (n, p)) ∷ session) shards i))
        (append_assoc (es i) (inserted_in i ((shard, (n, p)) ∷ [])) (inserted_in i session)
          ∙ ap (λ x. es i ++ x) (inserted_in-append i shard (n, p) session))
        (insert_all-IsWritten session more (insert lz4 shards shard (pos n) p)
          (insert-IsWritten es shards shard (n, p) h) i)

  -- The frame that a shard's file holds in the end.
  pub insert_all-frame :
      (session : Session) (i : ℕ)
      → (cs : List Bytes) × ((close_writer lz4 (insert_all session (λ j. open_shard lz4) i)).out
          ≡ frame cs)
        × (concat cs ≡ entries_bytes (inserted_in i session))
  insert_all-frame session i =
      close_writer-frame (inserted_in i session) (insert_all session (λ j. open_shard lz4) i)
        (insert_all-IsWritten session (λ j. []) (λ j. open_shard lz4) (λ j. open_shard-IsWritten) i)
