-- ===== src/Catalog/Merge/Catalogue.antt =====
-- internal/catalog/merge.go: `Merge`, one model for each row of a configured provider, in order.
-- `sort.Slice` is any sort: rows have distinct keys, so the order leaves nothing open.
pub mod Order
use darkrouter.Base.{
  String, Bool, true, false, ◌&&◌, ◌||◌, List, [], ◌∷◌, Option, none, some, Map, lookup, insert,
  string_eq, str_eq, str_lt, stable_sort, if◌then◌else◌, not,
}
use darkrouter.Provider.{Provider}
use darkrouter.Catalog.{Model}
use darkrouter.Catalog.Types.{Pricing}
use darkrouter.Catalog.Preset.{Preset, no_preset, TraitRule}
use darkrouter.Catalog.Join.{Metadata, Directory}
use darkrouter.Catalog.Index.{ModelKey, model_key_Eq}
use darkrouter.Catalog.Merge.{FreeCatalog, merge_one, traits_for}
use darkrouter.Catalog.Merge.Rows.{ModelRow, ModelOverride, no_override}

pub record MergeInput : Type 0 where
  pub providers : List Provider
  pub presets : Map String Preset
  pub doc : Directory Metadata
  pub litellm : Directory Pricing
  pub free : FreeCatalog
  pub rows : List ModelRow
  pub overrides : List ModelOverride

unfoldable pub serves_anthropic_shape : String → Preset → Bool
serves_anthropic_shape kind preset =
    if str_eq kind "anthropic" || str_eq kind "bedrock"
    then true
    else if str_eq kind "vertex"
    then str_eq preset.publisher "publishers/anthropic"
    else false

unfoldable pub free_catalog_key : Provider → String
free_catalog_key p = if str_eq p.preset "" then p.id else p.preset

-- byID
unfoldable pub by_id : List Provider → Map String Provider → Map String Provider
by_id [] m = m
by_id (p ∷ ps) m = by_id ps (insert p.id p m)

unfoldable pub key_of_override : ModelOverride → ModelKey
key_of_override o = record { provider = o.provider_id; model = o.model_id }

unfoldable pub overrides_of :
    List ModelOverride → Map ModelKey ModelOverride → Map ModelKey ModelOverride
unfolding key_of_override
overrides_of [] m = m
overrides_of (o ∷ os) m = overrides_of os (insert (key_of_override o) o m)

abbrev pub or_zero {ℓ} : {A : Type ℓ} → A → Option A → A
or_zero z none = z
or_zero z (some a) = a

-- `free`, where an empty catalogue means the one of the build.
unfoldable pub free_or : FreeCatalog → FreeCatalog → FreeCatalog
free_or embedded [] = embedded
free_or embedded (p ∷ ps) = p ∷ ps

unfoldable pub no_rules : List TraitRule → Bool
no_rules [] = true
no_rules (_ ∷ _) = false

unfoldable pub row_key : ModelRow → ModelKey
row_key row = record { provider = row.provider_id; model = row.model_id }

unfoldable pub model_before : Model → Model → Bool
model_before a b =
    if not (str_eq a.provider_id b.provider_id)
    then str_lt a.provider_id b.provider_id
    else str_lt a.model_id b.model_id

module _ (to_lower : String → String) (embedded : FreeCatalog) where
  -- The body of the loop, for the row's provider.
  unfoldable pub merge_row : MergeInput → ModelRow → Provider → Model
  unfolding free_catalog_key overrides_of row_key free_or no_rules serves_anthropic_shape
  merge_row input row p =
      let preset = or_zero no_preset (lookup p.preset input.presets) in
      let over = or_zero no_override (lookup (row_key row) (overrides_of input.overrides [])) in
      let m =
        merge_one to_lower row (free_catalog_key p) preset input.doc input.litellm
          (free_or embedded input.free) over in
      if no_rules preset.model_traits && serves_anthropic_shape p.kind preset
      then record m {
        traits =
            traits_for to_lower (or_zero no_preset (lookup "anthropic" input.presets)) row.model_id;
      }
      else m

  unfoldable pub merge_rows : MergeInput → Map String Provider → List ModelRow → List Model
  unfolding merge_row
  merge_rows input providers [] = []
  merge_rows input providers (row ∷ rows) =
      let rest = merge_rows input providers rows in
      elim (lookup row.provider_id providers) [
        | none ↦ rest
        | some p ↦ merge_row input row p ∷ rest
      ]

  unfoldable pub merge : MergeInput → List Model
  unfolding merge_rows by_id model_before
  merge input = stable_sort model_before (merge_rows input (by_id input.providers []) input.rows)
