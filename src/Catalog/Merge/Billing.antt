-- ===== src/Catalog/Merge/Billing.antt =====
-- internal/catalog/merge.go: whose price a merged model carries.
use darkrouter.Base.{
  String, true, not, ◌&&◌, ◌||◌, [], ◌∷◌, Option, none, ℤ, ◌≡◌, refl, arith, if◌then◌else◌, ◌∙◌,
}
use darkrouter.Catalog.{FreeTier, Model, authoritative}
use darkrouter.Catalog.Types.{Pricing}
use darkrouter.Catalog.Preset.{Preset, resells_prices}
use darkrouter.Catalog.Join.{Metadata, Directory, join, join_litellm}
use darkrouter.Catalog.Merge.Rows.{StoredCapabilities, ModelRow, ModelOverride}
use darkrouter.Catalog.Merge.Prices.{
  is_zero, price_source, resolve_price, with_unquoted_cache_rates,
}
use darkrouter.Catalog.Merge.Prices.Laws.{settled, read_rate, write_rate, with_unquoted-settled}
use darkrouter.Catalog.Merge.{
  describe, with_tier, with_discovered, with_override, with_window, merge_one, FreeCatalog,
  merged_price, doc_price, index_price, stored_price, blank,
}

price_kept :
    (tier : Option FreeTier) (runtime : ModelRow) (over : Option StoredCapabilities)
    (own quirk : Option ℤ) (m : Model)
    → (with_window own quirk
        (with_override over (with_discovered runtime (with_tier tier m)))).pricing
      ≡ m.pricing
unfolding with_tier with_discovered with_override with_window
price_kept tier runtime over own quirk m = ground arith

led_by_row :
    (row : ModelRow) (d i : Pricing)
    → row.price_known ≡ true
    → authoritative (price_source row.price_source) ≡ true
    → merged_price row d i ≡ with_unquoted_cache_rates (stored_price row) row (d ∷ i ∷ [])
unfolding merged_price stored_price resolve_price
led_by_row row d i known auth = rw (auth, known) refl

known_by_any :
    (row : ModelRow) (d i : Pricing)
    → (merged_price row d i).known ≡ row.price_known || (d.known || i.known)
unfolding merged_price stored_price resolve_price
known_by_any row d i =
    let fill = with_unquoted-settled (stored_price row) row (d ∷ i ∷ []) refl refl in
    ground (arith, fill.0.2)

-- The steps behind the row keep what names the model.
abbrev pub Names : Model → String → String → Type 0
Names m provider model = (m.provider_id ≡ provider) × (m.model_id ≡ model)

steps_keep-Names :
    (meta : Option Metadata) (tier : Option FreeTier) (row : ModelRow) (p : Pricing)
    (over : Option StoredCapabilities) (own quirk : Option ℤ) (m : Model) (a b : String)
    → Names m a b
    → Names
        (with_window own quirk (
          with_override over
            (with_discovered row (with_tier tier (record (describe meta row m) { pricing = p })))))
        a
        b
unfolding with_tier with_discovered with_override with_window describe
steps_keep-Names meta tier row p over own quirk m a b h = ground arith

module _ (to_lower : String → String) (row : ModelRow) (preset_id : String) (preset : Preset)
    (doc : Directory Metadata) (litellm : Directory Pricing) (free : FreeCatalog)
    (over : ModelOverride) where
  -- What the two directories say of the model.
  abbrev pub from_doc : Pricing
  from_doc = doc_price (join to_lower preset doc row.model_id)

  abbrev pub from_index : Pricing
  from_index = index_price (join_litellm to_lower preset litellm row.model_id)

  abbrev pub merged : Pricing
  merged = (merge_one to_lower row preset_id preset doc litellm free over).pricing

  merged_lem :
      merged ≡ record (merged_price row from_doc from_index) { resold = resells_prices preset }
  unfolding merge_one
  merged_lem = price_kept _ row _ _ _ _

  -- A known price that the operator, the seller or models.dev put on the row stands: its rates and
  -- its source are the merged ones whatever the directories say. Only a cache rate that the row does
  -- not quote and that is zero is taken from them, unless the row is free.
  pub stored_price_stands :
      row.price_known ≡ true
      → authoritative (price_source row.price_source) ≡ true
      → let unquoted = not (is_zero row.input_rate && is_zero row.output_rate) in
        let lower = from_doc ∷ from_index ∷ [] in
        (merged.known ≡ true)
        × (merged.source ≡ price_source row.price_source)
        × (merged.input_rate ≡ row.input_rate)
        × (merged.output_rate ≡ row.output_rate)
        × (merged.resold ≡ resells_prices preset)
        × (read_rate merged ≡ (
            if unquoted
            then settled
                (λ c. c.cache_read_rate)
                row.cache_read_known
                lower
                (row.cache_read_rate, none)
            else (row.cache_read_rate, none)))
        × (write_rate merged ≡ (
            if unquoted
            then settled
                (λ c. c.cache_write_rate)
                row.cache_write_known
                lower
                (row.cache_write_rate, none)
            else (row.cache_write_rate, none)))
  unfolding stored_price
  stored_price_stands known auth =
      let lower = from_doc ∷ from_index ∷ [] in
      let fill = with_unquoted-settled (stored_price row) row lower refl refl in
      let e = led_by_row row from_doc from_index known auth in
      rw (merged_lem, e)
        (
          fill.0.2 ∙ known,
          fill.0.3,
          fill.0.0,
          fill.0.1,
          refl,
          fill.1 ∙ ground arith,
          fill.2 ∙ ground arith,
        )

  -- A model is priced exactly when the row, models.dev or the price index states a price.
  pub merged_known : merged.known ≡ row.price_known || (from_doc.known || from_index.known)
  merged_known = rw merged_lem (known_by_any row from_doc from_index)

  pub merge_one-Names :
      Names
        (merge_one to_lower row preset_id preset doc litellm free over)
        row.provider_id
        row.model_id
  unfolding merge_one blank
  merge_one-Names =
      steps_keep-Names (join to_lower preset doc row.model_id) _ row _ _ _ _ _ _ _ (refl, refl)
