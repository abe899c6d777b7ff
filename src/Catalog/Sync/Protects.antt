-- ===== src/Catalog/Sync/Protects.antt =====
-- internal/catalog/sync.go: what a sync may overwrite.
use mathlib.Core.List.{Memᴰ}
use darkrouter.Base.{
  String, Bool, not, ◌||◌, List, [], ◌∷◌, Option, none, some, Map, lookup, string_eq, str_eq,
  str_eq_iff, if◌then◌else◌, ◌≡◌, refl, arith, All, Bool-cases, inl, inr, option_holds,
}
use darkrouter.Catalog.Preset.{Preset}
use darkrouter.Catalog.Join.{Metadata, Directory, join}
use darkrouter.Catalog.Merge.Rows.{StoredCapabilities, ModelRow}
use darkrouter.Catalog.Sync.{
  MetadataRow, metadata_row, source_after_sync, price_source_after_sync, update_of, updates,
}

-- The runtime or the operator put the stamp.
abbrev pub is_protected : String → Bool
is_protected stamp = str_eq stamp "discovered" || str_eq stamp "override"

abbrev pub listed : Metadata → StoredCapabilities
listed d = record {
  tools = d.capabilities.tools;
  vision = d.capabilities.vision;
  reasoning = d.capabilities.reasoning;
}

-- The update keeps the label of a protected stamp with all of its values, or replaces it with the
-- values; limits always come from the directory.
pub record Together (r : ModelRow) (d : Metadata) (u : MetadataRow) : Type 0 where
  pub provider : u.provider_id ≡ r.provider_id
  pub model : u.model_id ≡ r.model_id
  pub window : u.context_window ≡ d.context_window
  pub output : u.max_output_tokens ≡ d.max_output_tokens
  pub label :
      u.capabilities_source
      ≡ (if is_protected r.capabilities_source then r.capabilities_source else "models_dev")
  pub capabilities :
      u.capabilities ≡ (if is_protected r.capabilities_source then r.capabilities else listed d)
  pub stamp :
      u.price_source ≡ (if is_protected r.price_source then r.price_source else "models_dev")
  pub known : u.price_known ≡ (if is_protected r.price_source then r.price_known else d.price_known)
  pub input : u.input_rate ≡ (if is_protected r.price_source then r.input_rate else d.input_rate)
  pub output_rate :
      u.output_rate ≡ (if is_protected r.price_source then r.output_rate else d.output_rate)
  pub cache_read :
      u.cache_read_rate
      ≡ (if is_protected r.price_source then r.cache_read_rate else d.cache_read_rate)
  pub cache_write :
      u.cache_write_rate
      ≡ (if is_protected r.price_source then r.cache_write_rate else d.cache_write_rate)
  pub keeps_cache : u.keep_cache_rates ≡ is_protected r.price_source

stamp_kept :
    (s : String)
    → str_eq (if is_protected s then s else "models_dev") "models_dev" ≡ not (is_protected s)
stamp_kept s = elim (Bool-cases (str_eq s "discovered")) [
  | inl e ↦ rw ((str_eq_iff s "discovered").0 e) refl
  | inr e ↦ elim (Bool-cases (str_eq s "override")) [
    | inl f ↦ rw ((str_eq_iff s "override").0 f) refl
    | inr f ↦ rw (e, f) refl
  ]
]

if_not :
    {A : Type 0} (b c : Bool) (x y : A) → c ≡ not b → (if c then x else y) ≡ (if b then y else x)
if_not b c x y e = ground (arith, e)

if_kept :
    {A : Type 0} (b c : Bool) (x y : A)
    → c ≡ not b
    → (if not c then x else y) ≡ (if b then x else y)
if_kept b c x y e = ground (arith, e)

not_kept : (b c : Bool) → c ≡ not b → not c ≡ b
not_kept b c e = ground (arith, e)

metadata_row-Together : (r : ModelRow) (d : Metadata) → Together r d (metadata_row r d)
unfolding metadata_row source_after_sync price_source_after_sync
metadata_row-Together r d =
    let caps = stamp_kept r.capabilities_source in
    let price = stamp_kept r.price_source in
    let b = is_protected r.price_source in
    record {
      provider = refl;
      model = refl;
      window = refl;
      output = refl;
      label = refl;
      capabilities = if_not (is_protected r.capabilities_source) _ _ _ caps;
      stamp = refl;
      known = if_kept b _ _ _ price;
      input = if_kept b _ _ _ price;
      output_rate = if_kept b _ _ _ price;
      cache_read = if_kept b _ _ _ price;
      cache_write = if_kept b _ _ _ price;
      keeps_cache = not_kept b _ price;
    }

module _ (to_lower : String → String) (doc : Directory Metadata) (presets : Map String Preset) where
  -- The row's provider is known, and the update is by the directory's record of the model.
  abbrev pub UpdateOf : ModelRow → MetadataRow → Type 0
  UpdateOf r u =
      (p : Preset) × (lookup r.provider_id presets ≡ some p)
      × (d : Metadata) × (join to_lower p doc r.model_id ≡ some d)
      × Together r d u

  -- The update belongs to one of the stored rows.
  abbrev pub Follows : List ModelRow → MetadataRow → Type 0
  Follows rows u = (r : ModelRow) × Memᴰ r rows × UpdateOf r u

  abbrev AnyUpdateOf : ModelRow → Option MetadataRow → Type 0
  AnyUpdateOf r none = Unit {0}
  AnyUpdateOf r (some u) = UpdateOf r u

  update_of-holds : (r : ModelRow) → AnyUpdateOf r (update_of to_lower doc presets r)
  unfolding update_of
  update_of-holds r =
      option_holds (AnyUpdateOf r) (lookup r.provider_id presets) none _ (λ _. tt)
        (λ p e.
          option_holds (AnyUpdateOf r) (join to_lower p doc r.model_id) none _ (λ _. tt)
            (λ d f. (p, e, d, f, metadata_row-Together r d)))

  later :
      (r : ModelRow) (rows : List ModelRow) (us : List MetadataRow)
      → All (Follows rows) us
      → All (Follows (r ∷ rows)) us
  later r rows [] h = tt
  later r rows (u ∷ us) h = ((h.0.0, Memᴰ.tail h.0.1, h.0.2), later r rows us h.1)

  added :
      (r : ModelRow) (rows : List ModelRow) (o : Option MetadataRow) (us : List MetadataRow)
      → AnyUpdateOf r o
      → All (Follows (r ∷ rows)) us
      → All (Follows (r ∷ rows)) (elim o [ none ↦ us | some u ↦ u ∷ us ])
  added r rows none us h k = k
  added r rows (some u) us h k = ((r, Memᴰ.head refl, h), k)

  -- Every row that a sync writes is for a stored row of a configured provider that the directory
  -- describes. Limits are the directory's. Capabilities and prices keep a stamp of the runtime or the
  -- operator together with all of their values, and otherwise take the directory's with its stamp.
  pub updates-Follows :
      (rows : List ModelRow) → All (Follows rows) (updates to_lower doc presets rows)
  unfolding updates
  updates-Follows [] = tt
  updates-Follows (r ∷ rs) =
      added r rs (update_of to_lower doc presets r) _ (update_of-holds r)
        (later r rs _ (updates-Follows rs))
