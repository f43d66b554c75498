-- ===== src/Replicator/Applied.antt =====
-- Which files a run of `poll` has applied, whatever it meets.
use gpsxdb.Prelude.{
  ℕ, zero, suc, ◌+◌, ◌-◌, ◌≡◌, refl, sym, ◌∙◌, ap, true, false, Bool-cases, Option-cases, ◌⊎◌, inl,
  inr, arith, Option, none, some,
}
use gpsxdb.Prelude.Int.{pos, negsuc}
use gpsxdb.Buffers.{Flushed, ok, thrown}
use gpsxdb.Replicator.{
  World, Replica, DeltaApplier, next, get_external_data_timestamp, set_external_data_timestamp,
  remote_sequence,
}
use gpsxdb.Replicator.Names.{osm_text}
use gpsxdb.Nav.{same_text}
use gpsxdb.Replicator.External.{caught, maybe_check_external_data}
use gpsxdb.Replicator.Frame.{IsFrame, maybe_check-IsFrame}
use gpsxdb.Replicator.Poll.{
  apply_file, download_and_apply, look, run_pending, poll_round, poll_loop, poll, six_hours_before,
}

pub Flushed-cases :
    {A : Type 0} (f : Flushed A) → ((a : A) × (f ≡ ok a)) ⊎ ((a : A) × (f ≡ thrown a))
Flushed-cases (ok a) = inl (a, refl)
Flushed-cases (thrown a) = inr (a, refl)

-- `k` files after the number `s`, each to its end and one after the other.
module _ (w : World) {A : Type 0} (d : DeltaApplier A) where
  unfoldable pub apply_files : ℕ → ℕ → A → Option A
  apply_files s zero a = some a
  apply_files s (suc k) a = elim (apply_files s k a) [
    | none ↦ none
    | some b ↦ elim (apply_file w d (suc (s + k)) b) [ ok c ↦ some c | thrown c ↦ none ]
  ]

  -- The files up to the recorded number have been applied, and no other; but a stopped run may also
  -- have applied the next one, or a part of it.
  abbrev pub IsReached : ℕ → A → Replica A → Type 0
  IsReached s a r =
      (k : ℕ) × (b : A) × (apply_files s k a ≡ some b)
      × (r.external_data_state osm_text ≡ some (pos (s + k)))
      × ((r.applier ≡ b)
          ⊎ ((r.stopped ≡ true) × (r.applier ≡ caught (apply_file w d (suc (s + k)) b))))

module _ (w : World) {A : Type 0} (d : DeltaApplier A) (s : ℕ) (a : A) where
  -- After `k` files that were applied to the end.
  abbrev pub IsAt : ℕ → A → Replica A → Type 0
  IsAt k b r =
      (apply_files w d s k a ≡ some b)
      × (r.external_data_state osm_text ≡ some (pos (s + k)))
      × (r.applier ≡ b)

  IsAt-IsReached : (k : ℕ) (b : A) (r : Replica A) → IsAt k b r → IsReached w d s a r
  IsAt-IsReached k b r (f, e, h) = (k, b, f, e, inl h)

  pub IsAt-IsFrame : (k : ℕ) (b : A) (r t : Replica A) → IsFrame r t → IsAt k b r → IsAt k b t
  IsAt-IsFrame k b r t (p, q, _, _) (f, e, h) = (f, q ∙ e, p ∙ h)

  pub apply_files-suc :
      (k : ℕ) (b c : A)
      → apply_files w d s k a ≡ some b
      → apply_file w d (suc (s + k)) b ≡ ok c
      → apply_files w d s (suc k) a ≡ some c
  unfolding apply_files
  apply_files-suc k b c e f = rw (e, apply_files, f)

  download-IsReached :
      (k : ℕ) (b : A) (r : Replica A)
      → IsAt k b r
      → let out = download_and_apply w d (suc (s + k)) r in
        ((out.1 ≡ true) × ((c : A) × IsAt (suc k) c out.0))
        ⊎ ((out.1 ≡ false) × IsReached w d s a (record out.0 { stopped = true }))
  unfolding download_and_apply set_external_data_timestamp same_text
  download-IsReached k b r (f, e, h) = elim (Bool-cases (w.download r.tick)) [
    | inr n ↦ rw (n, download_and_apply) (inr (refl, (k, b, f, e, inl h)))
    | inl y ↦ elim (Flushed-cases (apply_file w d (suc (s + k)) b)) [
      | inr (c, g) ↦
          let g' : apply_file w d (suc (s + k)) r.applier ≡ thrown c = rw h g in
          rw (y, download_and_apply, g') (inr (refl, (k, b, f, e, inr (refl, ap caught (sym g)))))
      | inl (c, g) ↦
          let g' : apply_file w d (suc (s + k)) r.applier ≡ ok c = rw h g in
          elim (Bool-cases (w.commit (r.tick + 1))) [
            | inl z ↦
                let row : some (pos (suc (s + k))) ≡ some (pos (s + suc k)) =
                  ap (λ n. some (pos n)) (omega arith) in
                rw (y, download_and_apply, g', z, set_external_data_timestamp)
                  (inl (refl, (c, (apply_files-suc k b c f g, row, refl))))
            | inr z ↦
                rw (y, download_and_apply, g', z, set_external_data_timestamp)
                  (inr (refl, (k, b, f, e, inr (refl, ap caught (sym g)))))
          ]
    ]
  ]

  IsReached-look : (r : Replica A) → IsReached w d s a r → IsReached w d s a (look w r)
  unfolding look
  IsReached-look r (k, b, f, e, inl h) = (k, b, f, e, inl h)
  IsReached-look r (k, b, f, e, inr (t, h)) = (k, b, f, e, inr (rw t refl, h))

  run_pending-IsReached :
      (n k : ℕ) (b : A) (r : Replica A)
      → IsAt k b r
      → IsReached w d s a (run_pending w d n (suc (s + k)) r)
  unfolding run_pending look
  run_pending-IsReached zero k b r h = IsAt-IsReached k b r h
  run_pending-IsReached (suc n) k b r h = elim (Bool-cases (look w r).stopped) [
    | inl e ↦ rw (e, run_pending) (IsAt-IsReached k b (look w r) h)
    | inr e ↦
        let r1 = look w r in
        let out = download_and_apply w d (suc (s + k)) r1 in
        elim (download-IsReached k b r1 h) [
          | inr (f, g) ↦ rw (e, run_pending, f) g
          | inl (f, (c, g)) ↦
              let checked = maybe_check_external_data w out.0 in
              let step : suc (s + suc k) ≡ suc (suc (s + k)) = omega arith in
              rw (e, run_pending, f, ← step)
                (run_pending-IsReached n (suc k) c checked
                  (IsAt-IsFrame (suc k) c out.0 checked (maybe_check-IsFrame w out.0) g))
        ]
  ]

  -- A round keeps to what is reached; where it goes on without being stopped, all is at one file.
  IsAt-tick :
      (k : ℕ) (b : A) (r : Replica A) (n : ℕ) → IsAt k b r → IsAt k b (record r { tick = n })
  IsAt-tick k b r n h = h

  poll_round-IsReached :
      (k : ℕ) (b : A) (r : Replica A) → IsAt k b r → IsReached w d s a (poll_round w d r).0
  unfolding poll_round get_external_data_timestamp
  poll_round-IsReached k b r h =
      let r1 = maybe_check_external_data w r in
      let h1 = IsAt-IsFrame k b r r1 (maybe_check-IsFrame w r) h in
      let r2 = record r1 { tick = r1.tick + 2 } in
      elim (Option-cases (remote_sequence w (r1.tick + 1))) [
        | inl e ↦ rw (e, poll_round) (IsAt-IsReached k b r2 h1)
        | inr (m, e) ↦ elim (Bool-cases (w.query r1.tick)) [
          | inr q ↦ rw (e, poll_round, q) (IsAt-IsReached k b r2 h1)
          | inl q ↦
              elim m
                  as (λ x.
                    remote_sequence w (r1.tick + 1) ≡ some x
                    → IsReached w d s a (poll_round w d r).0) [
                      | pos i ↦ λ g.
                          rw (g, poll_round, q, h1.1)
                            (run_pending-IsReached (i - (s + k)) k b r2 h1)
                      | negsuc i ↦ λ g. rw (g, poll_round, q, h1.1) (IsAt-IsReached k b r2 h1)
                    ]
                e
        ]
      ]

  poll_loop-IsReached :
      (n : ℕ) (r : Replica A) → IsReached w d s a r → IsReached w d s a (poll_loop w d n r)
  unfolding poll_loop look
  poll_loop-IsReached zero r h = h
  poll_loop-IsReached (suc n) r h = elim (Bool-cases (look w r).stopped) [
    | inl e ↦ rw (e, poll_loop) (IsReached-look r h)
    | inr e ↦
        let (k, b, f, g, x) = IsReached-look r h in
        let r1 = look w r in
        let out = poll_round w d r1 in
        let applied : r1.applier ≡ b = elim x [
          | inl y ↦ y
          | inr (t, y) ↦ absurd (ground (arith, rw e at t))
        ] in
        let reached = poll_round-IsReached k b r1 (f, g, applied) in
        elim (Bool-cases out.1) [
          | inl c ↦ rw (e, poll_loop, c) (poll_loop-IsReached n out.0 reached)
          | inr c ↦ rw (e, poll_loop, c) reached
        ]
  ]

module _ (w : World) {A : Type 0} (d : DeltaApplier A) where
  -- Whatever a run of poll meets, after any number of rounds: the sequence number that the database
  -- records has moved from s to some s + k, the k files after s have been applied to the end, each
  -- once and in their order, and the applier is as they leave it; or the run is stopped, and the
  -- applier is as the attempt to apply the file after these left it.
  pub poll-IsReached :
      (n s : ℕ) (r : Replica A)
      → r.external_data_state osm_text ≡ some (pos s)
      → IsReached w d s r.applier (poll w d n r)
  unfolding poll apply_files
  poll-IsReached n s r e =
      let start = record (next r) { last_external_check = six_hours_before (w.steady r.tick) } in
      let s_zero : s ≡ s + 0 = omega arith in
      poll_loop-IsReached w d s r.applier n start (
        IsAt-IsReached w d s r.applier 0 r.applier start
          (refl, e ∙ ap (λ i. some (pos i)) s_zero, refl))
