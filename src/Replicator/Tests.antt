-- ===== src/Replicator/Tests.antt =====
-- Runs of the poll at concrete worlds.
use gpsxdb.Prelude.{
  ℕ, suc, ◌+◌, ◌≡◌, ◌-◌, ◌≤◌, ◌<◌, refl, true, false, leb, if◌then◌else◌, List, [], ◌∷◌, Option,
  none, some, length, arith, ◌++◌,
}
use gpsxdb.Prelude.Int.{ℤ, pos}
use gpsxdb.Wkb.Hex.{Text}
use gpsxdb.Nav.{same_text, starts_with}
use gpsxdb.Buffers.{ok}
use gpsxdb.Delta.{create, delete, node_change, NodeEntry}
use gpsxdb.Replicator.{
  World, OscFile, DeltaApplier, Replica, strip_cr, find_sequence, remote_sequence,
  get_external_data_timestamp, set_external_data_timestamp,
}
use gpsxdb.Replicator.Names.{osm_text, wmm_text, airports_text, sequence_number_text}
use gpsxdb.Replicator.Path.{
  sequence_to_path, padded, digits, path_value, path_value-sequence_to_path,
}
use gpsxdb.Replicator.Poll.{
  apply_file, apply_changes, poll, poll_loop, poll_round, run_pending, look, download_and_apply,
}
use gpsxdb.Replicator.External.{
  maybe_check_external_data, check_external_data, check_source, check_wmm_refresh,
  check_airspace_refresh, check_refresh, reload,
}
use gpsxdb.Replicator.Applied.{IsReached, apply_files, poll-IsReached}
use gpsxdb.Replicator.CatchUp.{IsCalm, Answers, poll-reaches}

path_test :
    sequence_to_path 5123456
    ≡ b'0' ∷ b'0' ∷ b'5' ∷ b'/' ∷ b'1' ∷ b'2' ∷ b'3' ∷ b'/' ∷ b'4' ∷ b'5' ∷ b'6' ∷ []
unfolding sequence_to_path padded digits
path_test = refl

path_value-sequence_to_path_example :
    (path_value 0 (sequence_to_path 5123456) ≡ 5123456)
    × (5123456 < 1000000000 → length (sequence_to_path 5123456) ≡ 11)
path_value-sequence_to_path_example = path_value-sequence_to_path 5123456

abbrev some_node : NodeEntry
some_node = record { id = pos 1; name = []; tags = []; lon = 0; lat = 0 }

-- Two changes in each file.
abbrev two_changes : OscFile
two_changes = record {
  changes = node_change create some_node ∷ node_change delete some_node ∷ [];
  is_whole = true;
}

abbrev one_digit : Text → Option ℤ
one_digit (c ∷ []) = some (pos (c - 48))
one_digit s = none

-- "sequenceNumber=9" and a carriage return, from tick 4 on.
abbrev state_lines : ℕ → Option (List Text)
state_lines t =
    if leb 4 t then some (osm_text ∷ (sequence_number_text ++ (b'9' ∷ 13 ∷ [])) ∷ []) else none

abbrev calm_world : World
calm_world = record {
  signal = λ t. false;
  download = λ t. true;
  query = λ t. true;
  commit = λ t. true;
  steady = λ t. t;
  time = λ t. pos 1000;
  last_modified = λ s t. pos 500;
  load = λ l t. some true;
  has_openaip_key = λ t. true;
  state_txt = state_lines;
  stoll = one_digit;
  osc_file = λ path. two_changes;
}

-- The database refuses every write.
abbrev read_only_world : World
read_only_world = record calm_world { commit = λ t. false }

-- An applier that counts.
abbrev counter : DeltaApplier ℕ
counter = record { apply = λ c n. ok (suc n); flush = λ n. ok n }

abbrev fresh : Replica ℕ
fresh = record {
  applier = 0;
  external_data_state = λ name. if same_text name osm_text then some (pos 6) else none;
  last_external_check = pos 0;
  stopped = false;
  tick = 0;
}

counter-applied : (seq a : ℕ) → (b : ℕ) × (apply_file calm_world counter seq a ≡ ok b)
unfolding apply_file apply_changes
counter-applied seq a = (suc (suc a), refl)

calm_world-IsCalm : IsCalm calm_world counter
calm_world-IsCalm = record {
  no_signal = λ t. refl;
  downloaded = λ t. refl;
  queried = λ t. refl;
  committed = λ t. refl;
  applied = counter-applied;
}

calm_world-Answers : Answers calm_world counter 4 9
unfolding remote_sequence find_sequence strip_cr starts_with
calm_world-Answers t h =
    let e : leb 4 t ≡ true = ground arith in (9, rw (e, remote_sequence) refl, omega arith)

poll-reaches_example :
    let out = poll calm_world counter 5 fresh in
    (k : ℕ) × (9 ≤ 6 + k)
    × (out.external_data_state osm_text ≡ some (pos (6 + k)))
    × (apply_files calm_world counter 6 k 0 ≡ some out.applier)
    × (out.stopped ≡ false)
poll-reaches_example =
    poll-reaches calm_world counter 4 9 5 6 fresh calm_world-IsCalm calm_world-Answers (omega arith)
      refl (unfold same_text in refl)

poll-IsReached_example :
    IsReached read_only_world counter 6 0 (poll read_only_world counter 5 fresh)
poll-IsReached_example = poll-IsReached read_only_world counter 5 6 fresh (unfold same_text in refl)

-- A run that cannot record its sequence number stops after the first file, which is applied.
read_only_test :
    let out = poll read_only_world counter 5 fresh in
    (out.stopped ≡ true) × (out.applier ≡ 2) × (out.external_data_state osm_text ≡ some (pos 6))
unfolding poll poll_loop poll_round run_pending look download_and_apply apply_file apply_changes
    maybe_check_external_data check_external_data check_source check_wmm_refresh
    check_airspace_refresh check_refresh reload get_external_data_timestamp
    set_external_data_timestamp remote_sequence find_sequence strip_cr starts_with same_text
read_only_test = (refl, refl, refl)

calm_test :
    let out = poll calm_world counter 5 fresh in
    (out.applier ≡ 6)
    × (out.external_data_state osm_text ≡ some (pos 9))
    × (out.external_data_state wmm_text ≡ some (pos 1000))
    × (out.external_data_state airports_text ≡ some (pos 500))
unfolding poll poll_loop poll_round run_pending look download_and_apply apply_file apply_changes
    maybe_check_external_data check_external_data check_source check_wmm_refresh
    check_airspace_refresh check_refresh reload get_external_data_timestamp
    set_external_data_timestamp remote_sequence find_sequence strip_cr starts_with same_text
calm_test = (refl, refl, refl, refl)
