-- ===== src/Buffers/Retry.antt =====
-- `tryCopyBatch`, whatever the attempts end in.
use gpsxdb.Prelude.{
  ℕ, zero, suc, ◌+◌, ◌-◌, ◌≤◌, ◌<◌, ◌≡◌, refl, true, false, ◌||◌, ltb, ◌==◌, Bool-cases, inl, inr,
  ◌⊎◌, ap, List, [], ◌∷◌, ◌++◌, length, arith,
}
use gpsxdb.Buffers.{
  Record, Copied, committed, bad_line, bad_number, failed, Batch, erase_at, give_up, try_copy_batch,
}

module _ (copy : ℕ → Copied) where
  -- From the n-th attempt on, with the table's rows and a batch, this is what comes of them: each
  -- attempt that names a row of the batch takes this row out, the next attempt is made with the
  -- others, and the last attempt is of one of the other kinds.
  pub data Copies : ℕ → List Record → List Record → Batch → Type 0 where
    nothing :
        (n : ℕ) (rows : List Record)
        → Copies n rows []
            (record { rows = rows; buf = []; attempts = n; returned = 0; threw = false })
    written :
        (n : ℕ) (rows : List Record) (r : Record) (buf : List Record)
        → copy n ≡ committed
        → Copies n rows (r ∷ buf) (record {
          rows = rows ++ (r ∷ buf);
          buf = r ∷ buf;
          attempts = n + 1;
          returned = length (r ∷ buf);
          threw = false;
        })
    skipped :
        (n : ℕ) (rows before : List Record) (bad : Record) (after : List Record) (b : Batch)
        → copy n ≡ bad_line (length before + 1)
        → Copies (n + 1) rows (before ++ after) b
        → Copies n rows (before ++ (bad ∷ after)) b
    no_line :
        (n : ℕ) (rows : List Record) (r : Record) (buf : List Record)
        → copy n ≡ failed
        → Copies n rows (r ∷ buf) (record {
          rows = rows;
          buf = r ∷ buf;
          attempts = n + 1;
          returned = length (r ∷ buf);
          threw = false;
        })
    no_such_line :
        (n : ℕ) (rows : List Record) (r : Record) (buf : List Record) (line : ℕ)
        → copy n ≡ bad_line line
        → (line ≡ 0) ⊎ (length (r ∷ buf) < line)
        → Copies n rows (r ∷ buf) (record {
          rows = rows;
          buf = r ∷ buf;
          attempts = n + 1;
          returned = length (r ∷ buf);
          threw = false;
        })
    no_number :
        (n : ℕ) (rows : List Record) (r : Record) (buf : List Record)
        → copy n ≡ bad_number
        → Copies n rows (r ∷ buf) (record {
          rows = rows;
          buf = r ∷ buf;
          attempts = n + 1;
          returned = length (r ∷ buf);
          threw = true;
        })

  -- The row at an index, with those before and after it.
  split_at :
      (n : ℕ) (buf : List Record)
      → n < length buf
      → (before : List Record) × (bad : Record) × (after : List Record) × (buf
          ≡ before ++ (bad ∷ after))
        × (erase_at n buf ≡ before ++ after)
        × (length before ≡ n)
  split_at n [] h = absurd (omega arith)
  split_at zero (r ∷ buf) h = ([], r, buf, refl, refl, refl)
  split_at (suc n) (r ∷ buf) h =
      let (before, bad, after, e, f, l) = split_at n buf (omega arith) in
      (r ∷ before, bad, after, ap (λ l. r ∷ l) e, ap (λ l. r ∷ l) f, omega (arith, l))

  skip_row :
      (n k : ℕ) (rows buf : List Record) (b : Batch)
      → k < length buf
      → copy n ≡ bad_line (k + 1)
      → Copies (n + 1) rows (erase_at k buf) b
      → Copies n rows buf b
  skip_row n k rows buf b h e c =
      let (before, bad, after, whole, rest, l) = split_at k buf h in
      rw whole (skipped n rows before bad after b (rw l e) (rw rest at c))

  length-erase_at :
      (n : ℕ) (buf : List Record) → n < length buf → length (erase_at n buf) + 1 ≡ length buf
  length-erase_at n [] h = absurd (omega arith)
  length-erase_at zero (r ∷ buf) h = omega arith
  length-erase_at (suc n) (r ∷ buf) h = omega (arith, length-erase_at n buf (omega arith))

  abbrev outcome : Copied → ℕ → ℕ → List Record → Record → List Record → Batch
  outcome c fuel n rows r buf = elim c [
    | committed ↦ record {
      rows = rows ++ (r ∷ buf);
      buf = r ∷ buf;
      attempts = n + 1;
      returned = length (r ∷ buf);
      threw = false;
    }
    | failed ↦ give_up (n + 1) rows (r ∷ buf)
    | bad_number ↦ record (give_up (n + 1) rows (r ∷ buf)) { threw = true }
    | bad_line line ↦ elim (line == 0 || ltb (length (r ∷ buf)) line) [
      | true ↦ give_up (n + 1) rows (r ∷ buf)
      | false ↦ try_copy_batch copy fuel (n + 1) rows (erase_at (line - 1) (r ∷ buf))
    ]
  ]

  -- One round, by what its attempt ends in.
  outcome-Copies :
      (c : Copied) (fuel n : ℕ) (rows : List Record) (r : Record) (buf : List Record)
      → copy n ≡ c
      → ((k : ℕ)
          → k < length (r ∷ buf)
          → Copies
              (n + 1)
              rows
              (erase_at k (r ∷ buf))
              (try_copy_batch copy fuel (n + 1) rows (erase_at k (r ∷ buf))))
      → Copies n rows (r ∷ buf) (outcome c fuel n rows r buf)
  outcome-Copies committed fuel n rows r buf e go = written n rows r buf e
  outcome-Copies failed fuel n rows r buf e go = no_line n rows r buf e
  outcome-Copies bad_number fuel n rows r buf e go = no_number n rows r buf e
  outcome-Copies (bad_line line) fuel n rows r buf e go =
      elim (Bool-cases (line == 0 || ltb (length (r ∷ buf)) line)) [
        | inl t ↦ rw (t, outcome) (no_such_line n rows r buf line e (ground arith))
        | inr f ↦
            let small : line - 1 < length (r ∷ buf) = ground arith in
            let pred : line ≡ line - 1 + 1 = ground arith in
            rw (f, outcome)
              (skip_row n (line - 1) rows (r ∷ buf) _ small (rw (← pred) e) (go (line - 1) small))
      ]

  -- With fuel for each row `tryCopyBatch` ends, whatever its attempts end in: an attempt that names a
  -- row takes it out of the batch; the first that does not ends the loop, and only if it commits has
  -- the table grown, by the rows that are left in their order, else it is as it was. The count that
  -- is returned is that of the rows that are left in both cases; `std::stoi` throws on a text that
  -- it does not read.
  pub try_copy_batch-Copies :
      (fuel n : ℕ) (rows buf : List Record)
      → length buf ≤ fuel
      → Copies n rows buf (try_copy_batch copy fuel n rows buf)
  unfolding try_copy_batch
  try_copy_batch-Copies zero n rows [] h = nothing n rows
  try_copy_batch-Copies zero n rows (r ∷ buf) h = absurd (omega arith)
  try_copy_batch-Copies (suc fuel) n rows [] h = nothing n rows
  try_copy_batch-Copies (suc fuel) n rows (r ∷ buf) h =
      outcome-Copies (copy n) fuel n rows r buf refl (λ k small.
        try_copy_batch-Copies fuel (n + 1) rows (erase_at k (r ∷ buf))
          (omega (arith, length-erase_at k (r ∷ buf) small)))
