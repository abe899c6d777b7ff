-- ===== src/Catalog/Merge/Rows.antt =====
-- internal/store/catalog.go: the stored rows that the merge reads.
use darkrouter.Base.{String, Bool, List, [], Option, none, ℤ}

-- `store.ModelCapabilities`.
pub record StoredCapabilities : Type 0 where
  pub tools : Bool
  pub vision : Bool
  pub reasoning : Bool

-- `store.ModelRow`, without the streak and the times of discovery.
pub record ModelRow : Type 0 where
  pub provider_id : String
  pub model_id : String
  pub publisher : String
  pub surfaces : List String
  pub capabilities : StoredCapabilities
  pub capabilities_source : String
  pub context_window : ℤ
  pub max_output_tokens : ℤ
  pub input_rate : ℤ
  pub output_rate : ℤ
  pub cache_read_rate : ℤ
  pub cache_write_rate : ℤ
  pub cache_read_known : Bool
  pub cache_write_known : Bool
  pub price_known : Bool
  pub price_source : String
  pub state : String

-- `store.ModelOverride`; `none` is nil.
pub record ModelOverride : Type 0 where
  pub provider_id : String
  pub model_id : String
  pub surfaces : List String
  pub capabilities : Option StoredCapabilities
  pub context_window : Option ℤ

abbrev pub no_override : ModelOverride
no_override = record {
  provider_id = "";
  model_id = "";
  surfaces = [];
  capabilities = none;
  context_window = none;
}
