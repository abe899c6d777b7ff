-- ===== src/Catalog/Merge/Catalogue/Order.antt =====
-- internal/catalog/merge.go: the order of the merged catalogue is that of the keys, whatever order
-- the rows come in.
use mathlib.Core.List.{Permᴰ, Perm}
use darkrouter.Base.{
  String, Bool, true, false, not, List, [], ◌∷◌, Option, none, some, Map, lookup, string_eq, str_eq,
  str_eq_iff, str_lt, str_lt-asymm, str_lt_trans, str_lt-total, if◌then◌else◌, ◌≡◌, ◌≢◌, ◌⊎◌, inl,
  inr, refl, arith, All, IsSorted, stable_sort-IsSorted, stable_sort-perm, stable_sort_perm, Apart,
  if_holds,
}
use darkrouter.Provider.{Provider}
use darkrouter.Catalog.{Model}
use darkrouter.Catalog.Merge.{FreeCatalog}
use darkrouter.Catalog.Merge.Rows.{ModelRow}
use darkrouter.Catalog.Merge.Billing.{Names, merge_one-Names}
use darkrouter.Catalog.Merge.Catalogue.{
  MergeInput, model_before, merge_row, merge_rows, merge, by_id,
}

key_lt : String → String → String → String → Bool
key_lt p m q n = if not (str_eq p q) then str_lt p q else str_lt m n

key_asymm : (p m q n : String) → key_lt p m q n ≡ true → key_lt q n p m ≡ false
unfolding key_lt
key_asymm p m q n h =
    ground (arith, str_eq_iff p q, str_eq_iff q p, str_lt-asymm p q, str_lt-asymm m n)

-- A text that is not below the next is not below any that follows.
text_le_trans : (a b c : String) → str_lt b a ≡ false → str_lt c b ≡ false → str_lt c a ≡ false
text_le_trans a b c h k = ground (arith, str_lt-total b a, str_lt_trans c a b, str_lt-asymm a b)

key_le_trans :
    (p m q n r o : String)
    → key_lt q n p m ≡ false
    → key_lt r o q n ≡ false
    → key_lt r o p m ≡ false
unfolding key_lt
key_le_trans p m q n r o h k = ground (
  arith,
  str_eq_iff q p,
  str_eq_iff r q,
  str_eq_iff r p,
  text_le_trans p q r,
  text_le_trans m n o,
  str_lt-total q p,
  str_lt-total r q,
  str_lt-asymm p q,
)

key_total : (p m q n : String) → key_lt p m q n ≡ false → key_lt q n p m ≡ false → (p ≡ q) × (m ≡ n)
unfolding key_lt
key_total p m q n h k =
    ground (arith, str_eq_iff p q, str_eq_iff q p, str_lt-total p q, str_lt-total m n)

before_asymm : (a b : Model) → model_before a b ≡ true → model_before b a ≡ false
unfolding model_before key_lt
before_asymm a b = key_asymm a.provider_id a.model_id b.provider_id b.model_id

before_le_trans :
    (a b c : Model) → model_before b a ≡ false → model_before c b ≡ false → model_before c a ≡ false
unfolding model_before key_lt
before_le_trans a b c =
    key_le_trans a.provider_id a.model_id b.provider_id b.model_id c.provider_id c.model_id

same {ℓ} : {A : Type ℓ} (xs : List A) → Permᴰ xs xs
same [] = Permᴰ.nil
same (x ∷ xs) = Permᴰ.cons refl (same xs)

-- No two rows share a provider and a model.
abbrev pub DistinctRows : List ModelRow → Type 0
DistinctRows [] = Unit {0}
DistinctRows (r ∷ rs) =
    All (λ s. (r.provider_id ≢ s.provider_id) ⊎ (r.model_id ≢ s.model_id)) rs × DistinctRows rs

module _ (to_lower : String → String) (embedded : FreeCatalog) where
  merge_row-Names :
      (input : MergeInput) (row : ModelRow) (p : Provider)
      → Names (merge_row to_lower embedded input row p) row.provider_id row.model_id
  unfolding merge_row
  merge_row-Names input row p =
      let m = merge_one-Names to_lower row _ _ _ _ _ _ in
      if_holds (λ x. Names x row.provider_id row.model_id) _ _ _ (λ e. m) (λ e. m)

  Told-Names :
      (a b : Model) (r s : ModelRow)
      → Names a r.provider_id r.model_id
      → Names b s.provider_id s.model_id
      → ((r.provider_id ≢ s.provider_id) ⊎ (r.model_id ≢ s.model_id))
      → (model_before a b ≡ true) ⊎ (model_before b a ≡ true)
  unfolding model_before key_lt
  Told-Names a b r s h k (inl d) =
      ground (arith, key_total a.provider_id a.model_id b.provider_id b.model_id, d)
  Told-Names a b r s h k (inr d) =
      ground (arith, key_total a.provider_id a.model_id b.provider_id b.model_id, d)

  module _ (input : MergeInput) (providers : Map String Provider) where
    add : ModelRow → Option Provider → List Model → List Model
    add row o rest = elim o [
      | none ↦ rest
      | some p ↦ merge_row to_lower embedded input row p ∷ rest
    ]

    add-Told :
        (a : Model) (r row : ModelRow) (o : Option Provider) (ms : List Model)
        → Names a r.provider_id r.model_id
        → ((r.provider_id ≢ row.provider_id) ⊎ (r.model_id ≢ row.model_id))
        → All (λ b. (model_before a b ≡ true) ⊎ (model_before b a ≡ true)) ms
        → All (λ b. (model_before a b ≡ true) ⊎ (model_before b a ≡ true)) (add row o ms)
    unfolding add
    add-Told a r row none ms n d h = h
    add-Told a r row (some p) ms n d h = (Told-Names a _ r row n (merge_row-Names input row p) d, h)

    merge_rows-Told :
        (a : Model) (r : ModelRow) (rows : List ModelRow)
        → Names a r.provider_id r.model_id
        → All (λ s. (r.provider_id ≢ s.provider_id) ⊎ (r.model_id ≢ s.model_id)) rows
        → All
            (λ b. (model_before a b ≡ true) ⊎ (model_before b a ≡ true))
            (merge_rows to_lower embedded input providers rows)
    unfolding merge_rows add
    merge_rows-Told a r [] n d = tt
    merge_rows-Told a r (row ∷ rows) n d =
        add-Told a r row (lookup row.provider_id providers) _ n d.0 (merge_rows-Told a r rows n d.1)

    add-Apart :
        (row : ModelRow) (o : Option Provider) (rows : List ModelRow)
        → DistinctRows (row ∷ rows)
        → Apart model_before before_asymm before_le_trans
            (merge_rows to_lower embedded input providers rows)
        → Apart model_before before_asymm before_le_trans
            (add row o (merge_rows to_lower embedded input providers rows))
    unfolding add
    add-Apart row none rows d h = h
    add-Apart row (some p) rows d h =
        (merge_rows-Told _ row rows (merge_row-Names input row p) d.0, h)

    merge_rows-Apart :
        (rows : List ModelRow)
        → DistinctRows rows
        → Apart model_before before_asymm before_le_trans
            (merge_rows to_lower embedded input providers rows)
    unfolding merge_rows add
    merge_rows-Apart [] d = tt
    merge_rows-Apart (row ∷ rows) d =
        add-Apart row (lookup row.provider_id providers) rows d (merge_rows-Apart rows d.1)

    add-perm :
        (row : ModelRow) (o : Option Provider) {xs ys : List Model}
        → Permᴰ xs ys
        → Permᴰ (add row o xs) (add row o ys)
    unfolding add
    add-perm row none p = p
    add-perm row (some q) p = Permᴰ.cons refl p

    add-swap :
        (r s : ModelRow) (o q : Option Provider) (xs : List Model)
        → Permᴰ (add r o (add s q xs)) (add s q (add r o xs))
    unfolding add
    add-swap r s none q xs = same _
    add-swap r s (some o) none xs = same _
    add-swap r s (some o) (some q) xs = Permᴰ.swap refl refl

    merge_rows-perm :
        {xs ys : List ModelRow}
        → Permᴰ xs ys
        → Permᴰ
            (merge_rows to_lower embedded input providers xs)
            (merge_rows to_lower embedded input providers ys)
    unfolding merge_rows add
    merge_rows-perm Permᴰ.nil = Permᴰ.nil
    merge_rows-perm (Permᴰ.cons {a = a} e p) =
        rw (← e) (add-perm a (lookup a.provider_id providers) (merge_rows-perm p))
    merge_rows-perm (Permᴰ.swap {a = a} {b = b} {l = l} e f) =
        rw (← e, ← f)
          (add-swap a b (lookup a.provider_id providers) (lookup b.provider_id providers)
            (merge_rows to_lower embedded input providers l))
    merge_rows-perm (Permᴰ.trans p q) = Permᴰ.trans (merge_rows-perm p) (merge_rows-perm q)

  -- A rebuild lists the models by provider and id: the order of the stored rows, which have distinct
  -- keys, does not change the catalogue.
  pub merge_reproducible :
      (input : MergeInput) {rows : List ModelRow}
      → Permᴰ input.rows rows
      → DistinctRows input.rows
      → merge to_lower embedded input ≡ merge to_lower embedded (record input { rows = rows })
  unfolding merge
  merge_reproducible input p d =
      let providers = by_id input.providers [] in
      stable_sort_perm model_before before_asymm before_le_trans (merge_rows-perm input providers p)
        (merge_rows-Apart input providers input.rows d)

  -- The catalogue is sorted by provider and id, and holds one model for each row whose provider is
  -- configured.
  pub merge_sorts :
      (input : MergeInput)
      → IsSorted model_before (merge to_lower embedded input)
        × Perm
            (merge to_lower embedded input)
            (merge_rows to_lower embedded input (by_id input.providers []) input.rows)
  unfolding merge
  merge_sorts input = (
    stable_sort-IsSorted model_before before_asymm before_le_trans _,
    stable_sort-perm model_before _,
  )
