-- ===== src/Catalog/Free.antt =====
-- internal/catalog/free.go: which models of a sweep a free-only import keeps. A discovered model
-- is any `A` with its id, which is all that the import reads.
pub mod Kept
use darkrouter.Base.{
  ℕ, String, Bool, true, false, not, ◌&&◌, ◌||◌, List, [], ◌∷◌, Option, none, some, ◌==◌, str_eq,
  if◌then◌else◌, length, ltb,
}

-- `Metadata`: the fields that are read.
pub record Metadata : Type 0 where
  pub price_known : Bool
  pub input_micros : ℕ
  pub output_micros : ℕ

abbrev pub no_metadata : Metadata
no_metadata = record { price_known = false; input_micros = 0; output_micros = 0 }

-- `FreeRules`. A function that is `none` is nil.
pub record FreeRules : Type 0 where
  pub price : Option (String → Metadata × Bool)
  pub curated : Option (String → Bool)
  pub keyless : Bool
  pub unsanctioned : Option (String → Bool)

-- strings.HasSuffix
unfoldable pub has_suffix : String → String → Bool
has_suffix String.[] t = str_eq String.[] t
has_suffix (String.◌∷◌ c s) t = str_eq (String.◌∷◌ c s) t || has_suffix s t

-- Whether an optional rule names the model.
unfoldable pub names : Option (String → Bool) → String → Bool
names none id = false
names (some f) id = f id

unfoldable pub is_free_model : String → Metadata → Bool → Option (String → Bool) → Bool
unfolding has_suffix names
is_free_model model_id meta known curated =
    if has_suffix model_id ":free"
    then true
    else if names curated model_id
    then true
    else if not known || not meta.price_known
    then false
    else (meta.input_micros == 0 && meta.output_micros == 0)

unfoldable pub price_of : Option (String → Metadata × Bool) → String → Metadata × Bool
price_of none id = (no_metadata, false)
price_of (some f) id = f id

-- What the loop decides on one model: the veto outranks every way to be free.
unfoldable pub admitted : FreeRules → String → Bool
unfolding is_free_model price_of names
admitted rules id =
    let (meta, known) = price_of rules.price id in
    if names rules.unsanctioned id then false else is_free_model id meta known rules.curated

module _ {A : Type 0} (model_id : A → String) where
  -- A loop that keeps the models of which the test holds and names the others.
  unfoldable pub split : (String → Bool) → List A → List A × List String
  split keep [] = ([], [])
  split keep (m ∷ ms) =
      let (kept, dropped) = split keep ms in
      if keep (model_id m) then (m ∷ kept, dropped) else (kept, model_id m ∷ dropped)

  unfoldable pub without_unsanctioned : List A → Option (String → Bool) → List A × List String
  unfolding split
  without_unsanctioned models none = (models, [])
  without_unsanctioned models (some f) = split (λ id. not (f id)) models

  -- `len(out) == 0 && rules.Keyless && len(models) > 0`
  unfoldable pub falls_back : List A → FreeRules → List A → Bool
  falls_back kept rules models = length kept == 0 && (rules.keyless && ltb 0 (length models))

  unfoldable pub select_models_for_import : List A → Bool → FreeRules → List A × List String
  unfolding split admitted falls_back without_unsanctioned
  select_models_for_import models free_only rules =
      let (kept, dropped) = split (admitted rules) models in
      if not free_only
      then (models, [])
      else if falls_back kept rules models
      then without_unsanctioned models rules.unsanctioned
      else (kept, dropped)
