-- ===== src/Catalog/Merge/Examples.antt =====
-- The merge of a row that its provider priced, listed by both directories, beside a second provider.
use mathlib.Core.List.{Permᴰ}
use darkrouter.Catalog.Sync.{updates}
use darkrouter.Catalog.Sync.Protects.{Follows, updates-Follows}
use darkrouter.Base.{
  All, ℕ, String, Bool, true, false, not, ◌&&◌, List, [], ◌∷◌, none, Map, pos, str_eq_iff, lookup,
  string_eq, Distinct, ◌≡◌, refl, inr, if◌then◌else◌,
}
use darkrouter.Provider.{Provider}
use darkrouter.Catalog.{litellm, Model, authoritative}
use darkrouter.Catalog.Types.{Pricing, unpriced, no_capabilities}
use darkrouter.Catalog.Preset.{Preset, no_preset, TraitRule, resells_prices}
use darkrouter.Catalog.Join.{Metadata, Directory, climb}
use darkrouter.Catalog.Join.Ladder.{climb_reproducible}
use darkrouter.Catalog.Merge.{merge_one}
use darkrouter.Catalog.Merge.Rows.{ModelRow, no_override}
use darkrouter.Catalog.Merge.Surfaces.{surfaces_of, all_surfaces, parse_surfaces}
use darkrouter.Catalog.Merge.Surfaces.Laws.{IsNonempty, Within, given, surfaces_of_bounds}
use darkrouter.Catalog.Merge.Prices.{is_zero, price_source}
use darkrouter.Catalog.Merge.Prices.Laws.{settled, read_rate, write_rate}
use darkrouter.Catalog.Merge.Billing.{from_doc, from_index, stored_price_stands}
use darkrouter.Catalog.Merge.Catalogue.{MergeInput, merge}
use darkrouter.Catalog.Merge.Catalogue.Order.{merge_reproducible}

abbrev lower : String → String
lower s = s

abbrev stored : String → String → ModelRow
stored provider model = record {
  provider_id = provider;
  model_id = model;
  publisher = "";
  surfaces = "llm" ∷ [];
  capabilities = record { tools = true; vision = false; reasoning = false };
  capabilities_source = "discovered";
  context_window = pos 8192;
  max_output_tokens = pos 1024;
  input_rate = pos 3000000;
  output_rate = pos 15000000;
  cache_read_rate = pos 0;
  cache_write_rate = pos 0;
  cache_read_known = false;
  cache_write_known = false;
  price_known = true;
  price_source = "discovered";
  state = "live";
}

abbrev rule : String → Bool → TraitRule
rule text adaptive = record {
  match_text = text;
  adaptive = adaptive;
  manual_budget = true;
  free_sampling = false;
  no_prefill = false;
  thinking_always_on = false;
  no_forced_tool_choice = false;
}

abbrev preset : Preset
preset = record no_preset {
  surfaces = "llm" ∷ "embedding" ∷ [];
  models_dev_id = "acme";
  litellm_id = "acme_ai";
  quirks = "context-override=4096" ∷ [];
  model_traits = rule "big" false ∷ rule "big-v2" true ∷ [];
}

abbrev known : Metadata
known = record {
  context_window = pos 100000;
  max_output_tokens = pos 4096;
  input_rate = pos 1;
  output_rate = pos 2;
  cache_read_rate = pos 300000;
  cache_write_rate = pos 0;
  price_known = true;
  capabilities = no_capabilities;
}

abbrev doc : Directory Metadata
doc = ("acme", ("big-v2", known) ∷ []) ∷ []

abbrev index : Directory Pricing
index = ("acme_ai", ("big-v2", unpriced litellm) ∷ []) ∷ []

abbrev row : ModelRow
row = stored "acme" "big-v2"

abbrev mine : Model
mine = merge_one lower row "acme" preset doc index [] no_override

abbrev lists : List Pricing
lists =
    from_doc lower row "acme" preset doc index [] no_override
    ∷ from_index lower row "acme" preset doc index [] no_override
    ∷ []

quoted : authoritative (price_source "discovered") ≡ true
unfolding authoritative price_source
quoted = refl

stored_price_stands_example :
    (mine.pricing.known ≡ true)
    × (mine.pricing.source ≡ price_source "discovered")
    × (mine.pricing.input_rate ≡ pos 3000000)
    × (mine.pricing.output_rate ≡ pos 15000000)
    × (mine.pricing.resold ≡ resells_prices preset)
    × (read_rate mine.pricing ≡ (
        if not (is_zero (pos 3000000) && is_zero (pos 15000000))
        then settled (λ c. c.cache_read_rate) false lists (pos 0, none)
        else (pos 0, none)))
    × (write_rate mine.pricing ≡ (
        if not (is_zero (pos 3000000) && is_zero (pos 15000000))
        then settled (λ c. c.cache_write_rate) false lists (pos 0, none)
        else (pos 0, none)))
stored_price_stands_example =
    stored_price_stands lower row "acme" preset doc index [] no_override refl quoted

surfaces_of_bounds_example :
    IsNonempty (surfaces_of "bge-m3" [] ("llm" ∷ "embedding" ∷ []) ("llm" ∷ []))
    × Within all_surfaces (surfaces_of "bge-m3" [] ("llm" ∷ "embedding" ∷ []) ("llm" ∷ []))
    × Within
        (given "bge-m3"
          (parse_surfaces [])
          (parse_surfaces ("llm" ∷ "embedding" ∷ []))
          (parse_surfaces ("llm" ∷ [])))
        (surfaces_of "bge-m3" [] ("llm" ∷ "embedding" ∷ []) ("llm" ∷ []))
surfaces_of_bounds_example = surfaces_of_bounds "bge-m3" [] ("llm" ∷ "embedding" ∷ []) ("llm" ∷ [])

abbrev two : Map String ℕ
two = ("a:7b", 1) ∷ ("a-7b", 2) ∷ []

abbrev flipped : Map String ℕ
flipped = ("a-7b", 2) ∷ ("a:7b", 1) ∷ []

two-flipped : Permᴰ two flipped
two-flipped = Permᴰ.swap refl refl

two-Distinct : Distinct two
unfolding lookup
two-Distinct = (refl, (refl, tt))

climb_reproducible_example : climb lower [] two "x/a:7b" ≡ climb lower [] flipped "x/a:7b"
climb_reproducible_example = climb_reproducible lower [] "x/a:7b" two-flipped two-Distinct

abbrev provider : String → Provider
provider id = record {
  id = id;
  kind = "openaicompat";
  base_url = "";
  preset = id;
  auth_style = "bearer";
  credentials = [];
  models = [];
  allow_unsanctioned_free = false;
}

abbrev input : MergeInput
input = record {
  providers = provider "acme" ∷ [];
  presets = ("acme", preset) ∷ [];
  doc = doc;
  litellm = index;
  free = [];
  rows = stored "acme" "small" ∷ stored "acme" "big-v2" ∷ [];
  overrides = [];
}

merge_reproducible_example :
    merge lower [] input
    ≡ merge lower [] (record input { rows = stored "acme" "big-v2" ∷ stored "acme" "small" ∷ [] })
merge_reproducible_example =
    merge_reproducible lower [] input (Permᴰ.swap refl refl)
      ((inr (λ e. cc ((str_eq_iff "small" "big-v2").1 e)), tt), (tt, tt))

updates-Follows_example :
    All
      (Follows lower doc (("acme", preset) ∷ []) (row ∷ []))
      (updates lower doc (("acme", preset) ∷ []) (row ∷ []))
updates-Follows_example = updates-Follows lower doc (("acme", preset) ∷ []) (row ∷ [])
