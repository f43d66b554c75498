-- ===== src/Replicator/External.antt =====
-- The checks of the external data, of src/Replicator.cpp: which sources are loaded again, and when
-- their rows are written. A message on the console is left out.
use gpsxdb.Prelude.{
  ℕ, suc, ◌+◌, ◌*◌, Bool, true, false, not, ◌&&◌, ◌||◌, if◌then◌else◌, List, [], ◌∷◌, Option, none,
  some,
}
use gpsxdb.Prelude.Int.{ℤ, pos}
use gpsxdb.Wkb.Hex.{Text}
use gpsxdb.Nav.{same_text}
use gpsxdb.Buffers.{Flushed, ok, thrown}
use gpsxdb.Replicator.{
  Loader, airports, obstacles, wmm, class_airspace, special_use_airspace, international_airspace,
  military_training_routes, national_defense_tfrs, World, Replica, next, elapsed, is_negative,
  get_external_data_timestamp, set_external_data_timestamp,
}
use gpsxdb.Replicator.Names.{airports_text, obstacles_text, wmm_text, airspace_text}

-- `try` with a handler that goes on.
abbrev pub caught : {A : Type 0} → Flushed A → A
caught (ok r) = r
caught (thrown r) = r

abbrev pub update_tolerance_seconds : ℕ
update_tolerance_seconds = 300

abbrev pub wmm_refresh_seconds : ℕ
wmm_refresh_seconds = 90 * 24 * 3600

abbrev pub airspace_refresh_seconds : ℕ
airspace_refresh_seconds = 30 * 24 * 3600

abbrev pub external_check_seconds : ℕ
external_check_seconds = 6 * 3600

-- `std::abs(a - b) <= k`.
abbrev pub within : ℤ → ℤ → ℕ → Bool
within a b k = not (elapsed a b (suc k)) && not (elapsed b a (suc k))

-- One after the other, though one fails; `none` where one throws.
abbrev pub load_each : World → List Loader → ℕ → Option Bool
load_each w [] tick = some true
load_each w (l ∷ ls) tick = elim (w.load l tick) [
  | none ↦ none
  | some b ↦ elim (load_each w ls (tick + 1)) [ none ↦ none | some c ↦ some (b && c) ]
]

abbrev pub airspace_loaders : Bool → List Loader
airspace_loaders has_key =
    let rest = military_training_routes ∷ national_defense_tfrs ∷ [] in
    class_airspace
    ∷ special_use_airspace
    ∷ (if has_key then international_airspace ∷ rest else rest)

module _ (w : World) {A : Type 0} where
  -- The row is written when everything was loaded.
  unfoldable pub reload : List Loader → Text → ℤ → Replica A → Replica A
  reload ls name v r = elim (load_each w ls r.tick) [
    | some true ↦ caught (set_external_data_timestamp w name v (next r))
    | some false ↦ next r
    | none ↦ next r
  ]

  -- A source of the loop of `checkExternalData`.
  unfoldable pub check_source : Text → Loader → Replica A → Replica A
  check_source name l r =
      let remote_mtime = w.last_modified name r.tick in
      let r = next r in
      let known_mtime = get_external_data_timestamp w name r in
      if is_negative remote_mtime
      then r
      else if not (is_negative known_mtime)
          && within remote_mtime known_mtime update_tolerance_seconds
      then next r
      else reload (l ∷ []) name remote_mtime (next r)

  unfoldable pub check_external_data : Replica A → Replica A
  check_external_data r =
      check_source obstacles_text obstacles (check_source airports_text airports r)

  -- What `checkWMMRefresh` and `checkAirspaceRefresh` have in common.
  unfoldable pub check_refresh : List Loader → Text → ℕ → Replica A → Replica A
  check_refresh ls name period r =
      let now = w.time r.tick in
      let last = get_external_data_timestamp w name r in
      if not (is_negative last) && not (elapsed last now period)
      then next r
      else reload ls name now (next r)

  unfoldable pub check_wmm_refresh : Replica A → Replica A
  check_wmm_refresh r = check_refresh (wmm ∷ []) wmm_text wmm_refresh_seconds r

  unfoldable pub check_airspace_refresh : Replica A → Replica A
  check_airspace_refresh r =
      check_refresh (airspace_loaders (w.has_openaip_key r.tick)) airspace_text
        airspace_refresh_seconds r

  -- `maybeCheckExternalData`.
  unfoldable pub maybe_check_external_data : Replica A → Replica A
  maybe_check_external_data r =
      let now = pos (w.steady r.tick) in
      let r = next r in
      if elapsed r.last_external_check now external_check_seconds
      then record (check_airspace_refresh (check_wmm_refresh (check_external_data r))) {
        last_external_check = now;
      }
      else r

  -- `seedExternalDataTimestamp` for a source that it knows; it does nothing for another name.
  unfoldable pub seed_source : Text → Replica A → Flushed (Replica A)
  seed_source name r =
      let remote_mtime = w.last_modified name r.tick in
      if is_negative remote_mtime
      then ok (next r)
      else set_external_data_timestamp w name remote_mtime (next r)

  unfoldable pub seed_external_data_timestamp : Text → Replica A → Flushed (Replica A)
  seed_external_data_timestamp name r =
      if same_text name airports_text || same_text name obstacles_text
      then seed_source name r
      else ok r

  pub seed_wmm_timestamp : Replica A → Flushed (Replica A)
  seed_wmm_timestamp r = set_external_data_timestamp w wmm_text (w.time r.tick) r

  pub seed_airspace_timestamp : Replica A → Flushed (Replica A)
  seed_airspace_timestamp r = set_external_data_timestamp w airspace_text (w.time r.tick) r
