-- ===== src/Replicator/Poll.antt =====
-- The loop of `Replicator::poll`, src/Replicator.cpp, with `downloadAndApply`. It runs until it is
-- stopped: here for a number of rounds, which the theorems take as any.
use gpsxdb.Prelude.{
  ℕ, zero, suc, ◌+◌, ◌-◌, Bool, true, false, ◌||◌, leb, if◌then◌else◌, List, [], ◌∷◌, none, some,
}
use gpsxdb.Prelude.Int.{ℤ, pos, negsuc}
use gpsxdb.Buffers.{Flushed, ok, thrown}
use gpsxdb.Delta.{OscChange}
use gpsxdb.Replicator.{
  World, Replica, DeltaApplier, next, get_sequence, set_sequence, remote_sequence,
}
use gpsxdb.Replicator.Path.{sequence_to_path}
use gpsxdb.Replicator.External.{external_check_seconds, maybe_check_external_data}

-- The start of `poll`: the first check is due at once.
abbrev pub six_hours_before : ℕ → ℤ
six_hours_before now =
    if leb external_check_seconds now
    then pos (now - external_check_seconds)
    else negsuc (external_check_seconds - now - 1)

module _ (w : World) {A : Type 0} where
  -- A look at `g_stop`, which a signal may have set.
  unfoldable pub look : Replica A → Replica A
  look r = record (next r) { stopped = r.stopped || w.signal r.tick }

module _ (w : World) {A : Type 0} (d : DeltaApplier A) where
  unfoldable pub apply_changes : List OscChange → A → Flushed A
  apply_changes [] a = ok a
  apply_changes (c ∷ cs) a = elim (d.apply c a) [ ok b ↦ apply_changes cs b | thrown b ↦ thrown b ]

  -- `applyFile` of the file with this number.
  unfoldable pub apply_file : ℕ → A → Flushed A
  apply_file seq a = elim (apply_changes (w.osc_file (sequence_to_path seq)).changes a) [
    | ok b ↦ if (w.osc_file (sequence_to_path seq)).is_whole then d.flush b else thrown b
    | thrown b ↦ thrown b
  ]

  -- The flag is what `downloadAndApply` returns.
  unfoldable pub download_and_apply : ℕ → Replica A → Replica A × Bool
  download_and_apply seq r =
      if w.download r.tick
      then elim (apply_file seq r.applier) [
        | ok a ↦ elim (set_sequence w (pos seq) (record (next r) { applier = a })) [
          | ok s ↦ (s, true)
          | thrown s ↦ (s, false)
        ]
        | thrown a ↦ (record (next r) { applier = a }, false)
      ]
      else (next r, false)

  -- The loop over the pending numbers, of which there are `k`, from `seq` on.
  unfoldable pub run_pending : ℕ → ℕ → Replica A → Replica A
  run_pending zero seq r = r
  run_pending (suc k) seq r =
      let r = look w r in
      elim r.stopped [
        | true ↦ r
        | false ↦
            let out = download_and_apply seq r in
            elim out.1 [
              | true ↦ run_pending k (suc seq) (maybe_check_external_data w out.0)
              | false ↦ record out.0 { stopped = true }
            ]
      ]

  -- A round of the loop; the flag is false where it breaks.
  unfoldable pub poll_round : Replica A → Replica A × Bool
  poll_round r =
      let r = maybe_check_external_data w r in
      let local = get_sequence w r in
      let remote = remote_sequence w (r.tick + 1) in
      let r = record r { tick = r.tick + 2 } in
      elim remote [
        | none ↦ (r, true)
        | some m ↦ elim local [
          | negsuc n ↦ (r, false)
          | pos n ↦ elim m [ negsuc i ↦ (r, true) | pos i ↦ (run_pending (i - n) (suc n) r, true) ]
        ]
      ]

  unfoldable pub poll_loop : ℕ → Replica A → Replica A
  poll_loop zero r = r
  poll_loop (suc n) r =
      let r = look w r in
      elim r.stopped [
        | true ↦ r
        | false ↦ let out = poll_round r in elim out.1 [ true ↦ poll_loop n out.0 | false ↦ out.0 ]
      ]

  unfoldable pub poll : ℕ → Replica A → Replica A
  poll n r =
      poll_loop n (record (next r) { last_external_check = six_hours_before (w.steady r.tick) })
