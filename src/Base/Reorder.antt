-- ===== src/Base/Reorder.antt =====
-- A sort by a test that tells any two elements apart gives one list, whatever order it is handed.
use mathlib.Core.List.{Permᴰ, List, [], ◌∷◌}
use mathlib.Core.Path.{◌≡◌, refl, sym, ◌∙◌, subst}
use mathlib.Core.Logic.{◌⊎◌, inl, inr}
use mathlib.Core.Bool.{Bool, true, false}
use native.Mathlib.Omega.{arith}
use darkrouter.Base.Lists.{All}
use darkrouter.Base.Sort.{insert_sorted, stable_sort}

module _ {ℓ} {A : Type ℓ} (lt : A → A → Bool) (asymm : (a b : A) → lt a b ≡ true → lt b a ≡ false)
    (le_trans : (a b c : A) → lt b a ≡ false → lt c b ≡ false → lt c a ≡ false) where
  -- The order of two insertions is free where the test tells the two elements apart.
  insert_comm :
      (x y : A) (zs : List A)
      → lt x y ≡ true
      → insert_sorted lt x (insert_sorted lt y zs) ≡ insert_sorted lt y (insert_sorted lt x zs)
  unfolding insert_sorted
  insert_comm x y [] h = ground (arith, asymm x y)
  insert_comm x y (z ∷ zs) h = ground (
    arith,
    insert_comm x y zs,
    asymm x y,
    asymm y x,
    asymm z x,
    asymm z y,
    le_trans x z y,
    le_trans y z x,
    le_trans x y z,
    le_trans z y x,
    le_trans z x y,
    le_trans y x z,
  )

  -- The test tells the two elements apart.
  abbrev pub Told : A → A → Type 0
  Told x y = (lt x y ≡ true) ⊎ (lt y x ≡ true)

  abbrev pub Apart : List A → Type 0
  Apart [] = Unit {0}
  Apart (x ∷ xs) = All (λ y. Told x y) xs × Apart xs

  Told-comm : (x y : A) → Told x y → Told y x
  Told-comm x y (inl h) = inr h
  Told-comm x y (inr h) = inl h

  All-Told :
      (x : A) {xs ys : List A} → Permᴰ xs ys → All (λ y. Told x y) xs → All (λ y. Told x y) ys
  All-Told x Permᴰ.nil h = tt
  All-Told x (Permᴰ.cons e p) h = (subst (Told x) e h.0, All-Told x p h.1)
  All-Told x (Permᴰ.swap e f) h = (subst (Told x) f h.1.0, (subst (Told x) e h.0, h.1.1))
  All-Told x (Permᴰ.trans p q) h = All-Told x q (All-Told x p h)

  All-Told_eq : {x y : A} (zs : List A) → x ≡ y → All (λ z. Told x z) zs → All (λ z. Told y z) zs
  All-Told_eq zs e h = subst (λ w. All (λ z. Told w z) zs) e h

  pub Apart-perm : {xs ys : List A} → Permᴰ xs ys → Apart xs → Apart ys
  Apart-perm Permᴰ.nil h = tt
  Apart-perm (Permᴰ.cons {l₂ = ys} e p) h = (All-Told_eq ys e (All-Told _ p h.0), Apart-perm p h.1)
  Apart-perm (Permᴰ.swap {a = a} {b = b} {l = l} e f) h =
      ((rw (← e, ← f) (Told-comm a b h.0.0), All-Told_eq l f h.1.0), (All-Told_eq l e h.0.1, h.1.1))
  Apart-perm (Permᴰ.trans p q) h = Apart-perm q (Apart-perm p h)

  insert-Told :
      (x y : A) (zs : List A)
      → Told x y
      → insert_sorted lt x (insert_sorted lt y zs) ≡ insert_sorted lt y (insert_sorted lt x zs)
  insert-Told x y zs (inl h) = insert_comm x y zs h
  insert-Told x y zs (inr h) = sym (insert_comm y x zs h)

  pub stable_sort_perm :
      {xs ys : List A} → Permᴰ xs ys → Apart xs → stable_sort lt xs ≡ stable_sort lt ys
  unfolding stable_sort
  stable_sort_perm Permᴰ.nil h = refl
  stable_sort_perm (Permᴰ.cons e p) h = rw (e, stable_sort_perm p h.1)
  stable_sort_perm (Permᴰ.swap {a = a} {b = b} {l = l} e f) h =
      rw (← e, ← f) (insert-Told a b (stable_sort lt l) h.0.0)
  stable_sort_perm (Permᴰ.trans p q) h = stable_sort_perm p h ∙ stable_sort_perm q (Apart-perm p h)
