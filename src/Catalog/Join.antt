-- ===== src/Catalog/Join.antt =====
-- internal/catalog/normalize.go, `JoinLiteLLM` of internal/catalog/merge.go and `Doc` of
-- internal/catalog/modelsdev.go: from a model's id to a directory's record of it. `strings.ToLower`
-- is the argument `to_lower`.
pub mod Ladder
use Prim.Native.Char.{Char}
use darkrouter.Base.{
  ℕ, String, Bool, true, false, ◌||◌, List, [], ◌∷◌, Option, none, some, Map, lookup, string_eq,
  str_eq, str_lt, stable_sort, if◌then◌else◌, ℤ, pos, leaf, trim_space, replace_char,
}
use darkrouter.Catalog.Types.{Capabilities, Pricing, no_capabilities}
use darkrouter.Catalog.Preset.{Preset}

pub record Metadata : Type 0 where
  pub context_window : ℤ
  pub max_output_tokens : ℤ
  pub input_rate : ℤ
  pub output_rate : ℤ
  pub cache_read_rate : ℤ
  pub cache_write_rate : ℤ
  pub price_known : Bool
  pub capabilities : Capabilities

-- A directory: by its own name of the provider, then by the model's id.
abbrev pub Directory : Type 0 → Type 0
Directory A = Map String (Map String A)

-- doc[provider]
unfoldable pub bucket : {A : Type 0} → Directory A → String → Map String A
bucket doc provider = elim (lookup provider doc) [ none ↦ [] | some models ↦ models ]

-- `Doc.Metadata`.
unfoldable pub doc_metadata : Directory Metadata → String → String → Option Metadata
doc_metadata doc provider model = elim (lookup provider doc) [
  | none ↦ none
  | some models ↦ lookup model models
]

unfoldable pub ids_of : {A : Type 0} → Map String A → List String
ids_of [] = []
ids_of ((id, _) ∷ m) = id ∷ ids_of m

-- `Doc.ModelsFor`.
unfoldable pub models_for : Directory Metadata → String → List String
unfolding bucket ids_of
models_for doc provider = stable_sort str_lt (ids_of (bucket doc provider))

abbrev pub dash : Char
dash = "-"

module _ (to_lower : String → String) where
  unfoldable pub normalize_model_id : String → String
  normalize_model_id id = replace_char b':' dash (leaf (to_lower (trim_space id)))

  -- The first id in order that reduces to `want`.
  unfoldable pub first_alike : String → List String → Option String
  unfolding normalize_model_id
  first_alike want [] = none
  first_alike want (id ∷ ids) =
      let rest = first_alike want ids in
      if str_eq (normalize_model_id id) want then some id else rest

  -- The record whose id reduces to the same key, by the sorted ids.
  unfoldable pub by_normal_form : {A : Type 0} → Map String A → String → Option A
  unfolding first_alike ids_of
  by_normal_form models id =
      let want = normalize_model_id id in
      if str_eq want ""
      then none
      else elim (first_alike want (stable_sort str_lt (ids_of models))) [
        | none ↦ none
        | some found ↦ lookup found models
      ]

  -- The rungs that `Join` and `JoinLiteLLM` share: the alias, the id itself, the normal form.
  unfoldable pub climb : {A : Type 0} → Map String String → Map String A → String → Option A
  unfolding by_normal_form
  climb {A} aliases models id =
      let exact : Option A = elim (lookup id models) [
        | some a ↦ some a
        | none ↦ by_normal_form models id
      ] in
      elim (lookup id aliases) [
        | none ↦ exact
        | some alias ↦ elim (lookup alias models) [ some a ↦ some a | none ↦ exact ]
      ]

  unfoldable pub join : Preset → Directory Metadata → String → Option Metadata
  unfolding climb bucket
  join p doc id =
      if p.no_models_dev || str_eq p.models_dev_id ""
      then none
      else climb p.model_aliases (bucket doc p.models_dev_id) id

  unfoldable pub join_litellm : Preset → Directory Pricing → String → Option Pricing
  unfolding climb bucket
  join_litellm p doc id =
      if p.no_litellm || str_eq p.litellm_id ""
      then none
      else climb p.model_aliases (bucket doc p.litellm_id) id
