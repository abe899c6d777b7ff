-- ===== src/Catalog/Merge/Prices.antt =====
-- internal/catalog/merge.go: the price of a model, from candidates in order of precedence, and the
-- cache rates that its row does not quote.
pub mod Laws
use darkrouter.Base.{
  ℕ, String, Bool, true, false, not, ◌&&◌, ◌||◌, List, [], ◌∷◌, ◌++◌, Option, none, some, ◌==◌,
  str_eq, if◌then◌else◌, ℤ, pos, negsuc, contains_text, length,
}
use darkrouter.Catalog.{Source, models_dev, discovered, inferred, override, litellm, registry}
use darkrouter.Catalog.Types.{Pricing, unpriced}
use darkrouter.Catalog.Merge.Rows.{ModelRow}

unfoldable pub price_source : String → Source
price_source s =
    if str_eq s "discovered"
    then discovered
    else if str_eq s "override"
    then override
    else if str_eq s "models_dev"
    then models_dev
    else if str_eq s "litellm"
    then litellm
    else if str_eq s "registry"
    then registry
    else inferred

-- `resolvePrice`: the first candidate that is known.
unfoldable pub resolve_price : List Pricing → Pricing
resolve_price [] = unpriced inferred
resolve_price (c ∷ cs) = if c.known then c else resolve_price cs

unfoldable pub is_zero : ℤ → Bool
is_zero (pos n) = n == 0
is_zero (negsuc n) = false

-- One round of the loop of `withUnquotedCacheRates` for the cached reads.
unfoldable pub fill_read : Bool → Pricing → Pricing → Pricing
unfolding is_zero
fill_read quoted c p =
    if not quoted && (is_zero p.cache_read_rate && not (is_zero c.cache_read_rate))
    then record p { cache_read_rate = c.cache_read_rate; cache_read_source = some c.source }
    else p

-- The same for the cached writes.
unfoldable pub fill_write : Bool → Pricing → Pricing → Pricing
unfolding is_zero
fill_write quoted c p =
    if not quoted && (is_zero p.cache_write_rate && not (is_zero c.cache_write_rate))
    then record p { cache_write_rate = c.cache_write_rate; cache_write_source = some c.source }
    else p

unfoldable pub fill_all : ModelRow → List Pricing → Pricing → Pricing
unfolding fill_read fill_write
fill_all row [] p = p
fill_all row (c ∷ cs) p =
    fill_all row cs (
      if c.known
      then fill_write row.cache_write_known c (fill_read row.cache_read_known c p)
      else p)

-- A rate that nothing quotes is a guess.
unfoldable pub guess_read : Bool → Option Source → Option Source
guess_read quoted (some s) = some s
guess_read quoted none = if quoted then none else some inferred

unfoldable pub with_unquoted_cache_rates : Pricing → ModelRow → List Pricing → Pricing
unfolding fill_all guess_read
with_unquoted_cache_rates p row lower =
    if is_zero row.input_rate && is_zero row.output_rate
    then p
    else let filled = fill_all row lower p in
      record filled {
        cache_read_source = guess_read row.cache_read_known filled.cache_read_source;
        cache_write_source = guess_read row.cache_write_known filled.cache_write_source;
      }
