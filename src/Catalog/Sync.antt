-- ===== src/Catalog/Sync.antt =====
-- internal/catalog/sync.go: the bookkeeping of the syncs of models.dev, and the rows that one sync
-- writes. The fetch, the database and the rebuild are outside.
pub mod Newest
pub mod Protects
use darkrouter.Base.{
  ℕ, zero, suc, ◌+◌, ◌%◌, ◌^◌, String, Bool, true, false, not, ◌||◌, List, [], ◌∷◌, Option, none,
  some, Map, lookup, insert, string_eq, str_eq, leb, if◌then◌else◌, ℤ, pos, negsuc, incr, ltb_ℤ,
}
use darkrouter.Provider.{Provider}
use darkrouter.Catalog.Preset.{Preset, no_preset}
use darkrouter.Catalog.Join.{Metadata, Directory, join}
use darkrouter.Catalog.Merge.Rows.{StoredCapabilities, ModelRow}

-- An error is its text; "" is none.
pub record SyncStatus : Type 0 where
  pub run : ℕ
  pub finished : ℕ
  pub err : String

-- The fields under `statusMu`.
pub record Syncer : Type 0 where
  pub begun : ℕ
  pub running : ℤ
  pub last : SyncStatus

unfoldable pub new_syncer : Syncer
new_syncer = record {
  begun = 0;
  running = pos 0;
  last = record { run = 0; finished = 0; err = "" };
}

-- n--
unfoldable pub decr : ℤ → ℤ
decr (pos zero) = negsuc 0
decr (pos (suc n)) = pos n
decr (negsuc n) = negsuc (n + 1)

-- `begin` returns the run's number.
unfoldable pub begin_run : Syncer → Syncer × ℕ
begin_run s =
    let run = (s.begun + 1) % 2 ^ 64 in (record s { begun = run; running = incr s.running }, run)

unfoldable pub finish : Syncer → ℕ → String → ℕ → Syncer
unfolding decr
finish s run err now =
    let left = record s { running = decr s.running } in
    if leb run s.last.run
    then left
    else record left { last = record { run = run; finished = now; err = err } }

-- `Status`: the newest outcome, and whether a run is under way.
unfoldable pub status : Syncer → SyncStatus × Bool
status s = (s.last, ltb_ℤ (pos 0) s.running)

-- `sourceAfterSync` and `priceSourceAfterSync` keep the same two stamps.
unfoldable pub source_after_sync : String → String
source_after_sync current =
    if str_eq current "discovered" || str_eq current "override" then current else "models_dev"

unfoldable pub price_source_after_sync : String → String
price_source_after_sync current =
    if str_eq current "discovered" || str_eq current "override" then current else "models_dev"

-- `store.MetadataRow`.
pub record MetadataRow : Type 0 where
  pub provider_id : String
  pub model_id : String
  pub publisher : String
  pub surfaces : List String
  pub context_window : ℤ
  pub max_output_tokens : ℤ
  pub capabilities : StoredCapabilities
  pub capabilities_source : String
  pub input_rate : ℤ
  pub output_rate : ℤ
  pub cache_read_rate : ℤ
  pub cache_write_rate : ℤ
  pub price_known : Bool
  pub price_source : String
  pub keep_cache_rates : Bool

unfoldable pub metadata_row : ModelRow → Metadata → MetadataRow
unfolding source_after_sync price_source_after_sync
metadata_row r meta =
    let source = source_after_sync r.capabilities_source in
    let listed : StoredCapabilities = record {
      tools = meta.capabilities.tools;
      vision = meta.capabilities.vision;
      reasoning = meta.capabilities.reasoning;
    } in
    let price_src = price_source_after_sync r.price_source in
    let keep = not (str_eq price_src "models_dev") in
    record {
      provider_id = r.provider_id;
      model_id = r.model_id;
      publisher = r.publisher;
      surfaces = r.surfaces;
      context_window = meta.context_window;
      max_output_tokens = meta.max_output_tokens;
      capabilities = if str_eq source "models_dev" then listed else r.capabilities;
      capabilities_source = source;
      input_rate = if keep then r.input_rate else meta.input_rate;
      output_rate = if keep then r.output_rate else meta.output_rate;
      cache_read_rate = if keep then r.cache_read_rate else meta.cache_read_rate;
      cache_write_rate = if keep then r.cache_write_rate else meta.cache_write_rate;
      price_known = if keep then r.price_known else meta.price_known;
      price_source = price_src;
      keep_cache_rates = keep;
    }

unfoldable pub or_no_preset : Option Preset → Preset
or_no_preset none = no_preset
or_no_preset (some p) = p

-- presetOf
unfoldable pub preset_of : Map String Preset → List Provider → Map String Preset → Map String Preset
unfolding or_no_preset
preset_of presets [] m = m
preset_of presets (p ∷ ps) m =
    preset_of presets ps (insert p.id (or_no_preset (lookup p.preset presets)) m)

module _ (to_lower : String → String) (doc : Directory Metadata) where
  -- The row that is written for a stored row: none for an orphan or a model that does not join.
  unfoldable pub update_of : Map String Preset → ModelRow → Option MetadataRow
  unfolding metadata_row
  update_of presets r = elim (lookup r.provider_id presets) [
    | none ↦ none
    | some preset ↦ elim (join to_lower preset doc r.model_id) [
      | none ↦ none
      | some meta ↦ some (metadata_row r meta)
    ]
  ]

  -- The loop of `syncOnce`.
  unfoldable pub updates : Map String Preset → List ModelRow → List MetadataRow
  unfolding update_of
  updates presets [] = []
  updates presets (r ∷ rs) =
      let rest = updates presets rs in
      elim (update_of presets r) [ none ↦ rest | some u ↦ u ∷ rest ]
