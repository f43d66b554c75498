-- ===== src/Replicator/Frame.antt =====
-- What the checks of external data leave alone: the applier, the sequence number and `g_stop`.
use gpsxdb.Prelude.{
  ℕ, ◌≡◌, ◌≤◌, refl, ◌∙◌, Bool, true, false, not, ◌&&◌, if◌then◌else◌, Bool-cases, Option-cases,
  inl, inr, arith, List, ◌∷◌, [],
}
use gpsxdb.Prelude.Int.{ℤ, pos}
use gpsxdb.Wkb.Hex.{Text}
use gpsxdb.Nav.{same_text}
use gpsxdb.Replicator.{
  Loader, airports, obstacles, wmm, World, Replica, next, elapsed, is_negative,
  get_external_data_timestamp, set_external_data_timestamp,
}
use gpsxdb.Replicator.Names.{osm_text, airports_text, obstacles_text, wmm_text, airspace_text}
use gpsxdb.Replicator.External.{
  caught, load_each, reload, within, update_tolerance_seconds, check_source, check_external_data,
  check_refresh, check_wmm_refresh, check_airspace_refresh, airspace_loaders, wmm_refresh_seconds,
  airspace_refresh_seconds, external_check_seconds, maybe_check_external_data,
}

abbrev pub IsFrame : {A : Type 0} → Replica A → Replica A → Type 0
IsFrame r s =
    (s.applier ≡ r.applier)
    × (s.external_data_state osm_text ≡ r.external_data_state osm_text)
    × (s.stopped ≡ r.stopped)
    × (r.tick ≤ s.tick)

module _ {A : Type 0} where
  IsFrame-trans : (r s t : Replica A) → IsFrame r s → IsFrame s t → IsFrame r t
  IsFrame-trans r s t (a, b, c, d) (a', b', c', d') = (a' ∙ a, b' ∙ b, c' ∙ c, omega arith)

  IsFrame-next : (r : Replica A) → IsFrame r (next r)
  IsFrame-next r = (refl, refl, refl, omega arith)

  IsFrame-if :
      (b : Bool) (r s t : Replica A) → IsFrame r s → IsFrame r t → IsFrame r (if b then s else t)
  IsFrame-if true r s t p q = p
  IsFrame-if false r s t p q = q

module _ (w : World) {A : Type 0} where
  caught-IsFrame :
      (name : Text) (v : ℤ) (r : Replica A)
      → same_text osm_text name ≡ false
      → IsFrame r (caught (set_external_data_timestamp w name v r))
  unfolding set_external_data_timestamp
  caught-IsFrame name v r h = elim (Bool-cases (w.commit r.tick)) [
    | inl e ↦ rw (e, set_external_data_timestamp) (refl, rw h, refl, omega arith)
    | inr e ↦ rw (e, set_external_data_timestamp) (IsFrame-next r)
  ]

  reload-IsFrame :
      (ls : List Loader) (name : Text) (v : ℤ) (r : Replica A)
      → same_text osm_text name ≡ false
      → IsFrame r (reload w ls name v r)
  unfolding reload
  reload-IsFrame ls name v r h = elim (Option-cases (load_each w ls r.tick)) [
    | inl e ↦ rw (e, reload) (IsFrame-next r)
    | inr (true, e) ↦
        rw (e, reload)
          (IsFrame-trans r (next r) (caught (set_external_data_timestamp w name v (next r)))
            (IsFrame-next r) (caught-IsFrame name v (next r) h))
    | inr (false, e) ↦ rw (e, reload) (IsFrame-next r)
  ]

  reload-next-IsFrame :
      (ls : List Loader) (name : Text) (v : ℤ) (r : Replica A)
      → same_text osm_text name ≡ false
      → IsFrame r (reload w ls name v (next r))
  reload-next-IsFrame ls name v r h =
      IsFrame-trans r (next r) (reload w ls name v (next r)) (IsFrame-next r)
        (reload-IsFrame ls name v (next r) h)

  check_source-IsFrame :
      (name : Text) (l : Loader) (r : Replica A)
      → same_text osm_text name ≡ false
      → IsFrame r (check_source w name l r)
  unfolding check_source
  check_source-IsFrame name l r h =
      let s = reload w (l ∷ []) name (w.last_modified name r.tick) (next (next r)) in
      let known = get_external_data_timestamp w name (next r) in
      let loaded =
        IsFrame-trans r (next r) s (IsFrame-next r)
          (reload-next-IsFrame (l ∷ []) name (w.last_modified name r.tick) (next r) h) in
      let twice =
        IsFrame-trans r (next r) (next (next r)) (IsFrame-next r) (IsFrame-next (next r)) in
      IsFrame-if (is_negative (w.last_modified name r.tick)) r (next r)
        (if not (is_negative known)
            && within (w.last_modified name r.tick) known update_tolerance_seconds
          then next (next r)
          else s)
        (IsFrame-next r)
        (IsFrame-if
          (not (is_negative known)
            && within (w.last_modified name r.tick) known update_tolerance_seconds)
          r (next (next r)) s twice loaded)

  check_refresh-IsFrame :
      (ls : List Loader) (name : Text) (period : ℕ) (r : Replica A)
      → same_text osm_text name ≡ false
      → IsFrame r (check_refresh w ls name period r)
  unfolding check_refresh
  check_refresh-IsFrame ls name period r h =
      let last = get_external_data_timestamp w name r in
      IsFrame-if (not (is_negative last) && not (elapsed last (w.time r.tick) period)) r (next r)
        (reload w ls name (w.time r.tick) (next r)) (IsFrame-next r)
        (reload-next-IsFrame ls name (w.time r.tick) r h)

  -- All checks together.
  pub maybe_check-IsFrame : (r : Replica A) → IsFrame r (maybe_check_external_data w r)
  unfolding maybe_check_external_data check_external_data check_wmm_refresh check_airspace_refresh
      same_text
  maybe_check-IsFrame r =
      let r1 = next r in
      let r2 = check_source w airports_text airports r1 in
      let r3 = check_source w obstacles_text obstacles r2 in
      let r4 = check_refresh w (wmm ∷ []) wmm_text wmm_refresh_seconds r3 in
      let ls = airspace_loaders (w.has_openaip_key r4.tick) in
      let r5 = check_refresh w ls airspace_text airspace_refresh_seconds r4 in
      let all : IsFrame r r5 = IsFrame-trans r r1 r5 (IsFrame-next r) (
        IsFrame-trans r1 r2 r5 (check_source-IsFrame airports_text airports r1 refl) (
          IsFrame-trans r2 r3 r5 (check_source-IsFrame obstacles_text obstacles r2 refl) (
            IsFrame-trans r3 r4 r5
              (check_refresh-IsFrame (wmm ∷ []) wmm_text wmm_refresh_seconds r3 refl)
              (check_refresh-IsFrame ls airspace_text airspace_refresh_seconds r4 refl)))) in
      IsFrame-if (elapsed r.last_external_check (pos (w.steady r.tick)) external_check_seconds) r
        (record r5 { last_external_check = pos (w.steady r.tick) }) r1 all (IsFrame-next r)
