-- ===== src/Catalog/Merge.antt =====
-- internal/catalog/merge.go: what the catalog makes of a stored row, the preset, two directories,
-- the curated free tiers and the operator's override. `strings.ToLower` and the curated catalogue
-- of the build are arguments.
pub mod Rows
pub mod Surfaces
pub mod Prices
pub mod Catalogue
pub mod Precedence
pub mod Billing
pub mod Generations
mod Examples
use darkrouter.Base.{
  ℕ, String, Bool, true, false, not, ◌&&◌, ◌||◌, List, [], ◌∷◌, ◌++◌, Option, none, some, Map, Eq,
  lookup, insert, string_eq, ltb, ◌==◌, str_eq, str_lt, stable_sort, if◌then◌else◌, ℤ, pos, negsuc,
  len, replace_char, contains_text, atoi, length, leb,
}
use darkrouter.Provider.{Provider}
use darkrouter.Catalog.{
  Source, models_dev, discovered, inferred, override, Capabilities, FreeTier, no_tier, ModelState,
  live, stale, removed_upstream, Model, authoritative,
}
use darkrouter.Catalog.Types.{Traits, no_traits, no_capabilities, Pricing, unpriced}
use darkrouter.Catalog.Preset.{Preset, no_preset, TraitRule, resells_prices, context_override}
use darkrouter.Catalog.Join.{Metadata, Directory, join, join_litellm, dash}
use darkrouter.Catalog.Index.{ModelKey, model_key_Eq}
use darkrouter.Catalog.Merge.Rows.{StoredCapabilities, ModelRow, ModelOverride, no_override}
use darkrouter.Catalog.Merge.Surfaces.{surfaces_of}
use darkrouter.Catalog.Merge.Prices.{price_source, resolve_price, with_unquoted_cache_rates}

unfoldable pub parse_state : String → ModelState
parse_state s =
    if str_eq s "stale"
    then stale
    else if str_eq s "removed_upstream"
    then removed_upstream
    else live

unfoldable pub traits_of : TraitRule → Traits
traits_of r = record {
  adaptive = r.adaptive;
  manual_budget = r.manual_budget;
  free_sampling = r.free_sampling;
  known = true;
  no_prefill = r.no_prefill;
  thinking_always_on = r.thinking_always_on;
  no_forced_tool_choice = r.no_forced_tool_choice;
}

-- The loop of `traitsFor`: the longest match so far (-1 is `none`), and its traits. `name` is in
-- lower case with dashes for dots.
unfoldable pub longer : Option ℕ → ℕ → Bool
longer none n = true
longer (some best) n = ltb best n

module _ (to_lower : String → String) where
  unfoldable pub plain_name : String → String
  plain_name s = replace_char b'.' dash (to_lower s)

  unfoldable pub rule_matches : String → TraitRule → Bool
  unfolding plain_name
  rule_matches name r =
      not (str_eq (plain_name r.match_text) "") && contains_text name (plain_name r.match_text)

  unfoldable pub scan_traits : String → List TraitRule → Option ℕ → Traits → Traits
  unfolding rule_matches longer traits_of
  scan_traits name [] best out = out
  scan_traits name (r ∷ rs) best out =
      elim (rule_matches name r && longer best (len (plain_name r.match_text))) [
        | true ↦ scan_traits name rs (some (len (plain_name r.match_text))) (traits_of r)
        | false ↦ scan_traits name rs best out
      ]

  unfoldable pub traits_for : Preset → String → Traits
  unfolding scan_traits
  traits_for p id = scan_traits (plain_name id) p.model_traits none no_traits

-- Capabilities that a row or an override states.
unfoldable pub stated : StoredCapabilities → Capabilities
stated c = record { tools = c.tools; vision = c.vision; reasoning = c.reasoning; known = true }

unfoldable pub stored_price : ModelRow → Pricing
unfolding price_source
stored_price row = record {
  input_rate = row.input_rate;
  output_rate = row.output_rate;
  cache_read_rate = row.cache_read_rate;
  cache_write_rate = row.cache_write_rate;
  known = row.price_known;
  source = price_source row.price_source;
  resold = false;
  cache_read_source = none;
  cache_write_source = none;
}

-- A price that is not known is the zero value.
abbrev pub no_source : Source
no_source = Source.other_source ""

unfoldable pub doc_price : Option Metadata → Pricing
doc_price none = unpriced no_source
doc_price (some d) =
    if d.price_known
    then record {
      input_rate = d.input_rate;
      output_rate = d.output_rate;
      cache_read_rate = d.cache_read_rate;
      cache_write_rate = d.cache_write_rate;
      known = true;
      source = models_dev;
      resold = false;
      cache_read_source = none;
      cache_write_source = none;
    }
    else unpriced no_source

unfoldable pub index_price : Option Pricing → Pricing
index_price none = unpriced no_source
index_price (some p) = if p.known then p else unpriced no_source

-- A stored price leads the directories if its stamp is authoritative, and trails them otherwise.
unfoldable pub merged_price : ModelRow → Pricing → Pricing → Pricing
unfolding stored_price
merged_price row from_doc from_litellm =
    let stored = stored_price row in
    if authoritative stored.source
    then (let chosen = resolve_price (stored ∷ from_doc ∷ from_litellm ∷ []) in
        if stored.known
        then with_unquoted_cache_rates chosen row (from_doc ∷ from_litellm ∷ [])
        else chosen)
    else resolve_price (from_doc ∷ from_litellm ∷ stored ∷ [])

-- The record of models.dev, or what the row carries.
unfoldable pub describe : Option Metadata → ModelRow → Model → Model
describe none row m = record m {
  context_window = row.context_window;
  max_output_tokens = row.max_output_tokens;
  source = inferred;
}
describe (some d) row m = record m {
  capabilities = d.capabilities;
  source = models_dev;
  context_window = d.context_window;
  max_output_tokens = d.max_output_tokens;
}

unfoldable pub with_tier : Option FreeTier → Model → Model
with_tier none m = m
with_tier (some t) m = record m { free_tier = t }

unfoldable pub with_discovered : ModelRow → Model → Model
unfolding stated
with_discovered row m =
    if str_eq row.capabilities_source "discovered"
    then record m { capabilities = stated row.capabilities; source = discovered }
    else m

unfoldable pub with_override : Option StoredCapabilities → Model → Model
unfolding stated
with_override none m = m
with_override (some c) m = record m { capabilities = stated c; source = override }

-- `err == nil && n > 0`
unfoldable pub window_of : Option ℤ → Option ℤ
window_of none = none
window_of (some (pos n)) = if ltb 0 n then some (pos n) else none
window_of (some (negsuc n)) = none

unfoldable pub quirk_window : Option String → Option ℤ
unfolding window_of
quirk_window none = none
quirk_window (some v) = window_of (atoi v)

-- The operator's window, or else the preset's.
unfoldable pub with_window : Option ℤ → Option ℤ → Model → Model
with_window (some n) quirk m = record m { context_window = n }
with_window none (some n) m = record m { context_window = n }
with_window none none m = m

-- `FreeCatalog`: by preset and model.
abbrev pub FreeCatalog : Type 0
FreeCatalog = Map String (Map String FreeTier)

unfoldable pub tier_of : FreeCatalog → String → String → Option FreeTier
tier_of free preset model = elim (lookup preset free) [
  | none ↦ none
  | some models ↦ lookup model models
]

module _ (to_lower : String → String) where
  -- The model before its sources are consulted.
  unfoldable pub blank : ModelRow → Preset → ModelOverride → Model
  unfolding parse_state surfaces_of traits_for
  blank row preset over = record {
    provider_id = row.provider_id;
    model_id = row.model_id;
    publisher = row.publisher;
    surfaces = surfaces_of (to_lower row.model_id) over.surfaces preset.surfaces row.surfaces;
    capabilities = no_capabilities;
    source = no_source;
    state = parse_state row.state;
    context_window = pos 0;
    max_output_tokens = pos 0;
    traits = traits_for to_lower preset row.model_id;
    pricing = unpriced no_source;
    free_tier = no_tier;
  }

  unfoldable pub merge_one :
      ModelRow
      → String
      → Preset
      → Directory Metadata
      → Directory Pricing
      → FreeCatalog
      → ModelOverride
      → Model
  unfolding blank
  merge_one row preset_id preset doc litellm free over =
      let meta = join to_lower preset doc row.model_id in
      let listed = join_litellm to_lower preset litellm row.model_id in
      let described = describe meta row (blank row preset over) in
      let price = merged_price row (doc_price meta) (index_price listed) in
      let priced = record described { pricing = record price { resold = resells_prices preset } } in
      let tiered = with_tier (tier_of free preset_id row.model_id) priced in
      with_window over.context_window (quirk_window (context_override preset))
        (with_override over.capabilities (with_discovered row tiered))
