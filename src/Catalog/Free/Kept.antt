-- ===== src/Catalog/Free/Kept.antt =====
-- What a free-only import keeps and what it names as dropped.
use darkrouter.Base.{
  ◌<◌, String, Bool, true, false, not, List, [], ◌∷◌, Option, none, some, length, ◌==◌, All, ◌≡◌,
  refl, arith, Bool-cases, inl, inr, ◌⊎◌,
}
use darkrouter.Catalog.Free.{
  Metadata, FreeRules, is_free_model, price_of, admitted, split, without_unsanctioned, falls_back,
  select_models_for_import, names, has_suffix,
}

-- The ways in which a model is free: its name says so, the curated list has it, or its price is
-- known, and is nothing.
pub data IsFree (rules : FreeRules) (id : String) : Type 0 where
  by_name : has_suffix id ":free" ≡ true → IsFree rules id
  by_list : names rules.curated id ≡ true → IsFree rules id
  by_price :
      (price : String → Metadata × Bool)
      → rules.price ≡ some price
      → (price id).1 ≡ true
      → (price id).0.price_known ≡ true
      → (price id).0.input_micros ≡ 0
      → (price id).0.output_micros ≡ 0
      → IsFree rules id

abbrev pub IsSanctioned : FreeRules → String → Type 0
IsSanctioned rules id = names rules.unsanctioned id ≡ false

-- A model that a free-only import takes by the rules.
abbrev pub IsAllowed : FreeRules → String → Type 0
IsAllowed rules id = IsSanctioned rules id × IsFree rules id

abbrev called_free : FreeRules → Option (String → Metadata × Bool) → String → Bool
called_free rules price id =
    is_free_model id (price_of price id).0 (price_of price id).1 rules.curated

called_free-IsFree :
    (rules : FreeRules) (id : String) (o : Option (String → Metadata × Bool))
    → rules.price ≡ o
    → called_free rules o id ≡ true
    → IsFree rules id
unfolding is_free_model price_of
called_free-IsFree rules id o e h = elim (Bool-cases (has_suffix id ":free")) [
  | inl s ↦ by_name s
  | inr s ↦ elim (Bool-cases (names rules.curated id)) [
    | inl c ↦ by_list c
    | inr c ↦ priced o e h s c
  ]
]
  where
    priced :
        (p : Option (String → Metadata × Bool))
        → rules.price ≡ p
        → called_free rules p id ≡ true
        → has_suffix id ":free" ≡ false
        → names rules.curated id ≡ false
        → IsFree rules id
    priced none f k s c = absurd (ground (arith, k, s, c))
    priced (some price) f k s c =
        by_price price f (ground (arith, k, s, c)) (ground (arith, k, s, c))
          (ground (arith, k, s, c)) (ground (arith, k, s, c))

IsFree-called_free :
    (rules : FreeRules) (id : String) → IsFree rules id → called_free rules rules.price id ≡ true
unfolding is_free_model price_of
IsFree-called_free rules id (by_name h) = ground (arith, h)
IsFree-called_free rules id (by_list h) = ground (arith, h)
IsFree-called_free rules id (by_price price e k l i o) = rw e (ground (arith, k, l, i, o))

admitted-IsAllowed :
    (rules : FreeRules) (id : String) → admitted rules id ≡ true → IsAllowed rules id
unfolding admitted
admitted-IsAllowed rules id h =
    (ground (arith, h), called_free-IsFree rules id rules.price refl (ground (arith, h)))

refused-IsAllowed :
    (rules : FreeRules) (id : String) → admitted rules id ≡ false → ¬ IsAllowed rules id
unfolding admitted
refused-IsAllowed rules id h (s, f) = absurd (ground (arith, h, s, IsFree-called_free rules id f))

module _ {A : Type 0} (model_id : A → String) where
  -- Every model in its place: kept, if it is of the kind, and otherwise named by its id.
  pub data Parted (P : String → Type 0) : List A → List A → List String → Type 0 where
    nothing : Parted P [] [] []
    keeps :
        {m : A} {ms kept : List A} {dropped : List String}
        → P (model_id m)
        → Parted P ms kept dropped
        → Parted P (m ∷ ms) (m ∷ kept) dropped
    drops :
        {m : A} {ms kept : List A} {dropped : List String}
        → ¬ P (model_id m)
        → Parted P ms kept dropped
        → Parted P (m ∷ ms) kept (model_id m ∷ dropped)

  split-Parted :
      (P : String → Type 0) (keep : String → Bool) (ms : List A)
      → ((id : String) → keep id ≡ true → P id)
      → ((id : String) → keep id ≡ false → ¬ P id)
      → Parted P ms (split model_id keep ms).0 (split model_id keep ms).1
  unfolding split
  split-Parted P keep [] yes_ no_ = nothing
  split-Parted P keep (m ∷ ms) yes_ no_ = elim (Bool-cases (keep (model_id m))) [
    | inl e ↦ rw e (keeps (yes_ (model_id m) e) (split-Parted P keep ms yes_ no_))
    | inr e ↦ rw e (drops (no_ (model_id m) e) (split-Parted P keep ms yes_ no_))
  ]

  split_empty :
      (P : String → Type 0) (keep : String → Bool) (ms : List A)
      → ((id : String) → keep id ≡ false → ¬ P id)
      → length (split model_id keep ms).0 ≡ 0
      → All (λ m. ¬ P (model_id m)) ms
  unfolding split
  split_empty P keep [] no_ h = tt
  split_empty P keep (m ∷ ms) no_ h = elim (Bool-cases (keep (model_id m))) [
    | inl e ↦ absurd (ground (arith, e, h))
    | inr e ↦ (no_ (model_id m) e, split_empty P keep ms no_ (ground (arith, e, h)))
  ]

  without_unsanctioned-Parted :
      (o : Option (String → Bool)) (ms : List A)
      → Parted
          (λ id. names o id ≡ false)
          ms
          (without_unsanctioned model_id ms o).0
          (without_unsanctioned model_id ms o).1
  unfolding without_unsanctioned names
  without_unsanctioned-Parted none ms = all_kept ms
    where
      all_kept : (xs : List A) → Parted (λ id. false ≡ false) xs xs []
      all_kept [] = nothing
      all_kept (x ∷ xs) = keeps refl (all_kept xs)
  without_unsanctioned-Parted (some f) ms =
      split-Parted (λ id. f id ≡ false) (λ id. not (f id)) ms (λ id h. ground (arith, h))
        (λ id h k. absurd (ground (arith, h, k)))

  -- By the rules, where they leave something, the provider wants a key or the sweep was empty; and
  -- by the fallback, at a keyless provider of which no model is allowed.
  pub data Imported (rules : FreeRules) (models kept : List A) (dropped : List String)
      : Type 0 where
    by_rules :
        Parted (IsAllowed rules) models kept dropped
        → (rules.keyless ≡ false) ⊎ ((0 < length kept) ⊎ (length models ≡ 0))
        → Imported rules models kept dropped
    by_fallback :
        rules.keyless ≡ true
        → All (λ m. ¬ IsAllowed rules (model_id m)) models
        → Parted (IsSanctioned rules) models kept dropped
        → Imported rules models kept dropped

  stands :
      (kept : List A) (rules : FreeRules) (models : List A)
      → falls_back model_id kept rules models ≡ false
      → (rules.keyless ≡ false) ⊎ ((0 < length kept) ⊎ (length models ≡ 0))
  unfolding falls_back
  stands kept rules models h = elim (Bool-cases rules.keyless) [
    | inr k ↦ inl k
    | inl k ↦ elim (Bool-cases (length kept == 0)) [
      | inr n ↦ inr (inl (ground (arith, n)))
      | inl n ↦ inr (inr (ground (arith, h, k, n)))
    ]
  ]

  -- A free-only import keeps, in their order, the models that are allowed, which are sanctioned and
  -- free, and names the others as dropped. Only where that would leave nothing of a sweep of a
  -- keyless provider, it keeps every model that is sanctioned and names the others.
  pub import_keeps_allowed :
      (models : List A) (rules : FreeRules)
      → let out = select_models_for_import model_id models true rules in
        Imported rules models out.0 out.1
  unfolding select_models_for_import
  import_keeps_allowed models rules =
      let kept = (split model_id (admitted rules) models).0 in
      let refused = refused-IsAllowed rules in
      elim (Bool-cases (falls_back model_id kept rules models)) [
        | inl f ↦ rw f (
            by_fallback (unfold falls_back in ground (arith, f))
              (split_empty (IsAllowed rules) (admitted rules) models refused
                (unfold falls_back in ground (arith, f)))
              (without_unsanctioned-Parted rules.unsanctioned models))
        | inr f ↦ rw f (
            by_rules
              (split-Parted (IsAllowed rules) (admitted rules) models (admitted-IsAllowed rules)
                refused)
              (stands kept rules models f))
      ]
