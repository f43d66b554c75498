-- ===== src/Replicator.antt =====
-- src/Replicator.cpp: the process that polls a replication server, with the rows of
-- external_data_state of src/NavDB.cpp. What the process meets (downloads, queries, commits, clocks,
-- signals, loaders) is a `World`: answers by the number of the actions before. A string of the file
-- state.txt is a line of it.
pub mod Names
pub mod Path
pub mod External
pub mod Frame
pub mod Applied
pub mod CatchUp
mod Tests
pub mod Poll
use gpsxdb.Prelude.{
  ℕ, suc, ◌+◌, ◌-◌, Bool, true, false, ◌||◌, ◌==◌, leb, ltb, if◌then◌else◌, List, [], ◌∷◌, Option,
  none, some, drop,
}
use gpsxdb.Prelude.Int.{ℤ, pos, negsuc, pos_part, neg_part}
use gpsxdb.Wkb.Hex.{Text}
use gpsxdb.Nav.{same_text, starts_with}
use gpsxdb.Buffers.{Flushed, ok, thrown}
use gpsxdb.Delta.{OscChange}
use gpsxdb.Replicator.Names.{osm_text, sequence_number_text}

-- The methods of the loaders that the checks call, `load(false)` and its like.
pub data Loader : Type 0 where
  airports obstacles wmm : Loader
  class_airspace special_use_airspace international_airspace : Loader
  military_training_routes national_defense_tfrs : Loader

-- A replication file as the reader gives it: the changes that the callback gets, and whether the
-- parser then ends without an exception.
pub record OscFile : Type 0 where
  pub changes : List OscChange
  pub is_whole : Bool

-- `load` is nothing where the loader throws; `state_txt` where the download fails; `stoll` where it
-- throws. `osc_file` takes the path of `sequenceToPath`. `steady` and `time` count seconds.
pub record World : Type 0 where
  pub signal : ℕ → Bool
  pub download : ℕ → Bool
  pub query : ℕ → Bool
  pub commit : ℕ → Bool
  pub steady : ℕ → ℕ
  pub time : ℕ → ℤ
  pub last_modified : Text → ℕ → ℤ
  pub load : Loader → ℕ → Option Bool
  pub has_openaip_key : ℕ → Bool
  pub state_txt : ℕ → Option (List Text)
  pub stoll : Text → Option ℤ
  pub osc_file : Text → OscFile

-- The `IDeltaApplier` of the process: an exception leaves it as it was thrown.
pub record DeltaApplier (A : Type 0) : Type 0 where
  pub apply : OscChange → A → Flushed A
  pub flush : A → Flushed A

-- `tick` counts the actions; `stopped` is `g_stop`.
pub record Replica (A : Type 0) : Type 0 where
  pub applier : A
  pub external_data_state : Text → Option ℤ
  pub last_external_check : ℤ
  pub stopped : Bool
  pub tick : ℕ

abbrev pub next : {A : Type 0} → Replica A → Replica A
next r = record r { tick = r.tick + 1 }

abbrev pub put : Text → ℤ → (Text → Option ℤ) → Text → Option ℤ
put name v states key = if same_text key name then some v else states key

-- `now - last >= k`.
abbrev pub elapsed : ℤ → ℤ → ℕ → Bool
elapsed last now k = leb (pos_part last + neg_part now + k) (pos_part now + neg_part last)

abbrev pub is_negative : ℤ → Bool
is_negative (pos n) = false
is_negative (negsuc n) = true

module _ (w : World) {A : Type 0} where
  -- `getExternalDataTimestamp`: -1 for a missing row, and for any error.
  pub get_external_data_timestamp : Text → Replica A → ℤ
  get_external_data_timestamp name r =
      if w.query r.tick
      then elim (r.external_data_state name) [ none ↦ negsuc 0 | some v ↦ v ]
      else negsuc 0

  pub set_external_data_timestamp : Text → ℤ → Replica A → Flushed (Replica A)
  set_external_data_timestamp name v r =
      if w.commit r.tick
      then ok (record (next r) { external_data_state = put name v r.external_data_state })
      else thrown (next r)

  abbrev pub get_sequence : Replica A → ℤ
  get_sequence r = get_external_data_timestamp osm_text r

  abbrev pub set_sequence : ℤ → Replica A → Flushed (Replica A)
  set_sequence v r = set_external_data_timestamp osm_text v r

-- A line of state.txt without the carriage return that may end it; 13 is its code.
pub strip_cr : Text → Text
strip_cr [] = []
strip_cr (c ∷ []) = if c == 13 then [] else c ∷ []
strip_cr (c ∷ d ∷ cs) = c ∷ strip_cr (d ∷ cs)

pub find_sequence : (Text → Option ℤ) → List Text → Option ℤ
find_sequence stoll [] = none
find_sequence stoll (line ∷ lines) =
    let line = strip_cr line in
    if starts_with sequence_number_text line
    then stoll (drop 15 line)
    else find_sequence stoll lines

-- `remoteSequence`; nothing where it throws.
pub remote_sequence : World → ℕ → Option ℤ
remote_sequence w tick = elim (w.state_txt tick) [
  | none ↦ none
  | some lines ↦ find_sequence w.stoll lines
]
