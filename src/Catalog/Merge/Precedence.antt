-- ===== src/Catalog/Merge/Precedence.antt =====
-- internal/catalog/merge.go: the precedence of the sources, field by field.
use darkrouter.Base.{String, Bool, List, [], ◌∷◌, Option, none, some, ℤ, str_eq, if◌then◌else◌}
use darkrouter.Catalog.{Source, models_dev, discovered, override, Capabilities, FreeTier, Model}
use darkrouter.Catalog.Types.{Pricing}
use darkrouter.Catalog.Preset.{Preset}
use darkrouter.Catalog.Join.{Metadata, Directory, join}
use darkrouter.Catalog.Merge.Rows.{StoredCapabilities, ModelRow, ModelOverride}
use darkrouter.Catalog.Merge.{
  stated, describe, with_tier, with_override, with_window, merge_one, FreeCatalog,
}

-- The first source that has something to say, or the default.
abbrev pub first_of {ℓ} : {A : Type ℓ} → List (Option A) → A → A
first_of [] z = z
first_of (none ∷ os) z = first_of os z
first_of (some a ∷ os) z = a

-- A model's capabilities with where they come from.
abbrev pub Claim : Type 0
Claim = Capabilities × Source

abbrev pub from_override : Option StoredCapabilities → Option Claim
from_override none = none
from_override (some c) = some (stated c, override)

abbrev pub from_runtime : ModelRow → Option Claim
from_runtime row =
    if str_eq row.capabilities_source "discovered"
    then some (stated row.capabilities, discovered)
    else none

abbrev pub from_directory : Option Metadata → Option Claim
from_directory none = none
from_directory (some d) = some (d.capabilities, models_dev)

abbrev pub window_from : Option Metadata → Option ℤ
window_from none = none
window_from (some d) = some d.context_window

abbrev pub output_from : Option Metadata → Option ℤ
output_from none = none
output_from (some d) = some d.max_output_tokens

-- The steps of `merge_one` behind the price, at the values that they branch on.
settle :
    Option Metadata
    → Option FreeTier
    → Bool
    → Option StoredCapabilities
    → Option ℤ
    → Option ℤ
    → ModelRow
    → Pricing
    → Model
    → Model
settle meta tier runtime over own quirk row price m =
    let tiered = with_tier tier (record (describe meta row m) { pricing = price }) in
    with_window own quirk (
      with_override over (
        if runtime
        then record tiered { capabilities = stated row.capabilities; source = discovered }
        else tiered))

module _ (to_lower : String → String) (row : ModelRow) (preset_id : String) (preset : Preset)
    (doc : Directory Metadata) (litellm : Directory Pricing) (free : FreeCatalog)
    (over : ModelOverride) where
  abbrev m : Model
  m = merge_one to_lower row preset_id preset doc litellm free over

  abbrev meta : Option Metadata
  meta = join to_lower preset doc row.model_id
