-- ===== src/Replicator/CatchUp.antt =====
-- That a poll which meets no failure catches up with the server.
use gpsxdb.Prelude.{
  ℕ, zero, suc, ◌+◌, ◌-◌, ◌≡◌, ◌≤◌, ◌<◌, refl, sym, ◌∙◌, ap, Bool, true, false, Bool-cases, leb,
  Option-cases, ◌⊎◌, inl, inr, arith, Option, none, some,
}
use gpsxdb.Prelude.Int.{ℤ, pos, negsuc, pos_part}
use gpsxdb.Nav.{same_text}
use gpsxdb.Buffers.{ok}
use gpsxdb.Replicator.{
  World, Replica, DeltaApplier, next, get_external_data_timestamp, set_external_data_timestamp,
  remote_sequence,
}
use gpsxdb.Replicator.Names.{osm_text}
use gpsxdb.Replicator.External.{maybe_check_external_data}
use gpsxdb.Replicator.Frame.{maybe_check-IsFrame}
use gpsxdb.Replicator.Poll.{
  apply_file, download_and_apply, look, run_pending, poll_round, poll_loop, poll, six_hours_before,
}
use gpsxdb.Replicator.Applied.{apply_files, apply_files-suc, IsAt, IsAt-IsFrame}

-- The number that the server names, 0 where it names none.
abbrev answer : Option ℤ → ℕ
answer none = 0
answer (some m) = pos_part m

module _ (w : World) {A : Type 0} (d : DeltaApplier A) where
  -- No signal and no failure, of the network, the database or a file.
  pub record IsCalm : Type 0 where
    pub no_signal : (t : ℕ) → w.signal t ≡ false
    pub downloaded : (t : ℕ) → w.download t ≡ true
    pub queried : (t : ℕ) → w.query t ≡ true
    pub committed : (t : ℕ) → w.commit t ≡ true
    pub applied : (seq : ℕ) (a : A) → (b : A) × (apply_file w d seq a ≡ ok b)

  -- From some time on, the server answers with `target` at least. Before, it may fail to answer.
  abbrev pub Answers : ℕ → ℕ → Type 0
  Answers from target =
      (t : ℕ) → from ≤ t → (m : ℕ) × (remote_sequence w t ≡ some (pos m)) × (target ≤ m)

module _ (w : World) {A : Type 0} (d : DeltaApplier A) (calm : IsCalm w d) (s : ℕ) (a : A) where
  abbrev IsGoing : ℕ → ℕ → Replica A → Type 0
  IsGoing k tick r = ((b : A) × IsAt w d s a k b r) × (r.stopped ≡ false) × (tick ≤ r.tick)

  look-IsGoing : (k : ℕ) (r : Replica A) → IsGoing k r.tick r → IsGoing k (r.tick + 1) (look w r)
  unfolding look
  look-IsGoing k r ((b, h), e, _) = ((b, h), rw (e, calm.no_signal r.tick) refl, omega arith)

  checked-IsGoing :
      (k tick : ℕ) (r : Replica A)
      → IsGoing k tick r
      → IsGoing k tick (maybe_check_external_data w r)
  checked-IsGoing k tick r ((b, h), e, l) =
      let f = maybe_check-IsFrame w r in
      let (_, _, g, n) = f in
      ((b, IsAt-IsFrame w d s a k b r (maybe_check_external_data w r) f h), g ∙ e, omega arith)

  download-IsGoing :
      (k : ℕ) (r : Replica A)
      → IsGoing k r.tick r
      → let out = download_and_apply w d (suc (s + k)) r in
        (out.1 ≡ true) × IsGoing (suc k) r.tick out.0
  unfolding download_and_apply set_external_data_timestamp same_text
  download-IsGoing k r ((b, (f, e, h)), x, _) =
      let (c, g) = calm.applied (suc (s + k)) b in
      let g' : apply_file w d (suc (s + k)) r.applier ≡ ok c = rw h g in
      let row : some (pos (suc (s + k))) ≡ some (pos (s + suc k)) =
        ap (λ n. some (pos n)) (omega arith) in
      rw
        (
          calm.downloaded r.tick,
          download_and_apply,
          g',
          calm.committed (r.tick + 1),
          set_external_data_timestamp,
        )
        (refl, ((c, (apply_files-suc w d s a k b c f g, row, refl)), x, omega arith))

  run_pending-IsGoing :
      (n k : ℕ) (r : Replica A)
      → IsGoing k r.tick r
      → IsGoing (k + n) r.tick (run_pending w d n (suc (s + k)) r)
  unfolding run_pending
  run_pending-IsGoing zero k r h = let e : k + 0 ≡ k = omega arith in rw e h
  run_pending-IsGoing (suc n) k r h =
      let r1 = look w r in
      let h1 = look-IsGoing k r h in
      let out = download_and_apply w d (suc (s + k)) r1 in
      let (f, h2) = download-IsGoing k r1 (h1.0, h1.1, omega arith) in
      let r3 = maybe_check_external_data w out.0 in
      let (h3, e3, l3) = checked-IsGoing (suc k) r1.tick out.0 h2 in
      let step : suc (s + suc k) ≡ suc (suc (s + k)) = omega arith in
      let sum : k + suc n ≡ suc k + n = omega arith in
      let (h4, e4, l4) = run_pending-IsGoing n (suc k) r3 (h3, e3, omega arith) in
      rw (h1.1, run_pending, f, ← step, sum) (h4, e4, omega (arith, h1))

module _ (w : World) {A : Type 0} (d : DeltaApplier A) (calm : IsCalm w d) (s : ℕ) (a : A)
    (from target : ℕ) (answers : Answers w d from target) where
  -- How far a round comes.
  abbrev IsForward : ℕ → Replica A → Replica A × Bool → Type 0
  IsForward k r out =
      (out.1 ≡ true)
      × ((j : ℕ) × IsGoing w d calm s a (k + j) (r.tick + 2) out.0
          × (from ≤ r.tick → target ≤ s + (k + j)))

  IsForward-same :
      (k : ℕ) (r t : Replica A)
      → IsGoing w d calm s a k (r.tick + 2) t
      → (from ≤ r.tick → target ≤ s + k)
      → IsForward k r (t, true)
  IsForward-same k r t h g =
      let e : k + 0 ≡ k = omega arith in (refl, (0, rw e h, λ l. omega (arith, g l)))

  answer-late : (m : Option ℤ) (t : ℕ) → remote_sequence w t ≡ m → from ≤ t → target ≤ answer m
  answer-late m t e l = let (i, f, g) = answers t l in rw (sym e ∙ f) g

  poll_round-IsForward :
      (k : ℕ) (r : Replica A) → IsGoing w d calm s a k r.tick r → IsForward k r (poll_round w d r)
  unfolding poll_round get_external_data_timestamp
  poll_round-IsForward k r h =
      let r1 = maybe_check_external_data w r in
      let ((b, h1), e1, l1) = checked-IsGoing w d calm s a k r.tick r h in
      let q = calm.queried r1.tick in
      let r2 = record r1 { tick = r1.tick + 2 } in
      let here : IsGoing w d calm s a k (r.tick + 2) r2 = ((b, h1), e1, omega arith) in
      elim (Option-cases (remote_sequence w (r1.tick + 1))) [
        | inl e ↦
            rw (e, poll_round)
              (IsForward-same k r r2 here (λ l.
                let z : target ≤ 0 = answer-late none (r1.tick + 1) e (omega arith) in omega arith))
        | inr (m, e) ↦
            elim m
                as (λ x.
                  remote_sequence w (r1.tick + 1) ≡ some x → IsForward k r (poll_round w d r)) [
                    | negsuc i ↦ λ g.
                        rw (g, poll_round, q, h1.1)
                          (IsForward-same k r r2 here (λ l.
                            let z : target ≤ 0 =
                              answer-late (some (negsuc i)) (r1.tick + 1) g (omega arith) in
                            omega arith))
                    | pos i ↦ λ g.
                        rw (g, poll_round, q, h1.1)
                          (let (h3, e3, l3) =
                              run_pending-IsGoing w d calm s a (i - (s + k)) k r2
                                ((b, h1), e1, omega arith) in
                            (
                              refl,
                              (
                                i - (s + k),
                                (h3, e3, omega arith),
                                λ l.
                                    let z : target ≤ i =
                                      answer-late (some (pos i)) (r1.tick + 1) g (omega arith) in
                                    omega arith,
                              ),
                            ))
                  ]
              e
      ]

  poll_loop-reaches :
      (n k : ℕ) (r : Replica A)
      → IsGoing w d calm s a k r.tick r
      → (target ≤ s + k) ⊎ ((from < n + r.tick) × (0 < n))
      → (j : ℕ) × IsGoing w d calm s a j r.tick (poll_loop w d n r) × (target ≤ s + j)
  unfolding poll_loop
  poll_loop-reaches zero k r h l = (k, h, elim l [ inl x ↦ x | inr (x, y) ↦ omega arith ])
  poll_loop-reaches (suc n) k r h l =
      let r1 = look w r in
      let (h1, e1, l1) = look-IsGoing w d calm s a k r h in
      let out = poll_round w d r1 in
      let (c, (j, (h2, e2, l2), g)) = poll_round-IsForward k r1 (h1, e1, omega arith) in
      let near : (target ≤ s + (k + j)) ⊎ ((from < n + out.0.tick) × (0 < n)) = elim l [
        | inl x ↦ inl (omega arith)
        | inr (x, y) ↦ elim (Bool-cases (leb from r1.tick)) [
          | inl z ↦ inl (g (ground arith))
          | inr z ↦ let far : r1.tick < from = ground arith in inr (omega arith, omega arith)
        ]
      ] in
      let (i, (h3, e3, l3), t) = poll_loop-reaches n (k + j) out.0 (h2, e2, omega arith) near in
      rw (e1, poll_loop, c) (i, (h3, e3, omega arith), t)

-- A run of poll that no signal stops and that meets no failure of a download, the database or a
-- file, on a server that from the time `from` on names a number that is `target` or more: after more
-- than `from` rounds the recorded sequence number has reached the target, all files up to the
-- recorded number have been applied to the end, each once and in their order, and the run is not
-- stopped.
pub poll-reaches :
    (w : World) {A : Type 0} (d : DeltaApplier A) (from target n s : ℕ) (r : Replica A)
    → IsCalm w d
    → Answers w d from target
    → from < n
    → r.stopped ≡ false
    → r.external_data_state osm_text ≡ some (pos s)
    → let out = poll w d n r in
      (k : ℕ) × (target ≤ s + k)
      × (out.external_data_state osm_text ≡ some (pos (s + k)))
      × (apply_files w d s k r.applier ≡ some out.applier)
      × (out.stopped ≡ false)
unfolding poll apply_files
poll-reaches w d from target n s r calm answers l e h =
    let start = record (next r) { last_external_check = six_hours_before (w.steady r.tick) } in
    let row : some (pos s) ≡ some (pos (s + 0)) = ap (λ i. some (pos i)) (omega arith) in
    let (k, ((b, (f, g, x)), y, _), t) =
      poll_loop-reaches w d calm s r.applier from target answers n 0 start
        ((r.applier, (refl, h ∙ row, refl)), e, omega arith) (inr (omega arith, omega arith)) in
    (k, t, g, f ∙ ap some (sym x), y)
