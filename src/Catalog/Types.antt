-- ===== src/Catalog/Types.antt =====
-- internal/catalog/catalog.go and internal/catalog/freecatalog.go: the types that a model is made
-- of. Rates and limits are Go's signed integers; an empty `Source` string of a filled rate is
-- `none`.
use darkrouter.Base.{String, Bool, false, List, Option, none, ℤ, pos}

pub data Source : Type 0 where
  models_dev discovered inferred override litellm registry : Source
  other_source : String → Source

pub data Grade : Type 0 where
  measured declared indexed guessed : Grade

pub record Capabilities : Type 0 where
  pub tools : Bool
  pub vision : Bool
  pub reasoning : Bool
  pub known : Bool

abbrev pub no_capabilities : Capabilities
no_capabilities = record { tools = false; vision = false; reasoning = false; known = false }

pub data ModelState : Type 0 where
  live stale removed_upstream : ModelState
  other_state : String → ModelState

-- The quotas and the pool of a tier are left out: only the console reads them.
pub record FreeTier : Type 0 where
  pub free_type : String
  pub tos : String

-- The tier of a model that no free tier covers.
abbrev pub no_tier : FreeTier
no_tier = record { free_type = ""; tos = "" }

pub record Traits : Type 0 where
  pub adaptive : Bool
  pub manual_budget : Bool
  pub free_sampling : Bool
  pub known : Bool
  pub no_prefill : Bool
  pub thinking_always_on : Bool
  pub no_forced_tool_choice : Bool

abbrev pub no_traits : Traits
no_traits = record {
  adaptive = false;
  manual_budget = false;
  free_sampling = false;
  known = false;
  no_prefill = false;
  thinking_always_on = false;
  no_forced_tool_choice = false;
}

-- Micro-dollars per million tokens.
pub record Pricing : Type 0 where
  pub input_rate : ℤ
  pub output_rate : ℤ
  pub cache_read_rate : ℤ
  pub cache_write_rate : ℤ
  pub known : Bool
  pub source : Source
  pub resold : Bool
  pub cache_read_source : Option Source
  pub cache_write_source : Option Source

-- A price that nothing states, with its source.
abbrev pub unpriced : Source → Pricing
unpriced s = record {
  input_rate = pos 0;
  output_rate = pos 0;
  cache_read_rate = pos 0;
  cache_write_rate = pos 0;
  known = false;
  source = s;
  resold = false;
  cache_read_source = none;
  cache_write_source = none;
}

pub record Model : Type 0 where
  pub provider_id : String
  pub model_id : String
  pub publisher : String
  pub surfaces : List String
  pub capabilities : Capabilities
  pub source : Source
  pub state : ModelState
  pub context_window : ℤ
  pub max_output_tokens : ℤ
  pub traits : Traits
  pub pricing : Pricing
  pub free_tier : FreeTier
