-- ===== src/Base/Sort.antt =====
-- Go's `sort.SliceStable`: a stable sort by the given test, here by insertion, an element going
-- before the first one that is not less than it.
use mathlib.Core.List.Perm
use mathlib.Core.List.{List, [], ◌∷◌, Perm}
use mathlib.Core.Path.{◌≡◌}
use mathlib.Core.Logic.{inl, inr}
use mathlib.Core.Bool.{Bool, true, false}
use darkrouter.Base.Lists.{All}
use darkrouter.Base.Tests.{if◌then◌else◌, Bool-cases}

unfoldable pub insert_sorted {ℓ} : {A : Type ℓ} → (A → A → Bool) → A → List A → List A
insert_sorted lt x [] = x ∷ []
insert_sorted lt x (y ∷ ys) = if lt y x then y ∷ insert_sorted lt x ys else x ∷ y ∷ ys

unfoldable pub stable_sort {ℓ} : {A : Type ℓ} → (A → A → Bool) → List A → List A
unfolding insert_sorted
stable_sort lt [] = []
stable_sort lt (x ∷ xs) = insert_sorted lt x (stable_sort lt xs)

-- `a` may stand before `b`.
abbrev pub MayPrecede {ℓ} : {A : Type ℓ} → (A → A → Bool) → A → A → Type 0
MayPrecede lt a b = lt b a ≡ false

-- Every element may stand before all that follow it.
abbrev pub IsSorted {ℓ} : {A : Type ℓ} → (A → A → Bool) → List A → Type 0
IsSorted lt [] = Unit {0}
IsSorted lt (x ∷ xs) = All (λ y. lt y x ≡ false) xs × IsSorted lt xs

module _ {ℓ} {A : Type ℓ} (lt : A → A → Bool) (asymm : (a b : A) → lt a b ≡ true → lt b a ≡ false)
    (le_trans : (a b c : A) → lt b a ≡ false → lt c b ≡ false → lt c a ≡ false) where
  above :
      (x y : A) (ys : List A)
      → lt y x ≡ false
      → All (λ z. lt z y ≡ false) ys
      → All (λ z. lt z x ≡ false) ys
  above x y [] h a = tt
  above x y (z ∷ zs) h a = (le_trans x y z h a.0, above x y zs h a.1)

  All-insert_sorted :
      (x y : A) (ys : List A)
      → lt x y ≡ false
      → All (λ z. lt z y ≡ false) ys
      → All (λ z. lt z y ≡ false) (insert_sorted lt x ys)
  unfolding insert_sorted
  All-insert_sorted x y [] h a = (h, tt)
  All-insert_sorted x y (z ∷ zs) h a = elim (Bool-cases (lt z x)) [
    | inl e ↦ rw e (a.0, All-insert_sorted x y zs h a.1)
    | inr e ↦ rw e (h, a)
  ]

  insert_sorted-IsSorted :
      (x : A) (ys : List A) → IsSorted lt ys → IsSorted lt (insert_sorted lt x ys)
  unfolding insert_sorted
  insert_sorted-IsSorted x [] s = (tt, tt)
  insert_sorted-IsSorted x (y ∷ ys) s = elim (Bool-cases (lt y x)) [
    | inl e ↦ rw e (All-insert_sorted x y ys (asymm y x e) s.0, insert_sorted-IsSorted x ys s.1)
    | inr e ↦ rw e ((e, above x y ys e s.0), s)
  ]

  pub stable_sort-IsSorted : (xs : List A) → IsSorted lt (stable_sort lt xs)
  unfolding stable_sort
  stable_sort-IsSorted [] = tt
  stable_sort-IsSorted (x ∷ xs) =
      insert_sorted-IsSorted x (stable_sort lt xs) (stable_sort-IsSorted xs)

module _ {ℓ} {A : Type ℓ} (lt : A → A → Bool) where
  insert_sorted-perm : (x : A) (ys : List A) → Perm (insert_sorted lt x ys) (x ∷ ys)
  unfolding insert_sorted
  insert_sorted-perm x [] = Perm.refl (x ∷ [])
  insert_sorted-perm x (y ∷ ys) = elim (Bool-cases (lt y x)) [
    | inl e ↦ rw e (Perm.trans (Perm.cons y (insert_sorted-perm x ys)) (Perm.swap x y ys))
    | inr e ↦ rw e (Perm.refl (x ∷ y ∷ ys))
  ]

  pub stable_sort-perm : (xs : List A) → Perm (stable_sort lt xs) xs
  unfolding stable_sort
  stable_sort-perm [] = Perm.refl []
  stable_sort-perm (x ∷ xs) =
      Perm.trans (insert_sorted-perm x (stable_sort lt xs)) (Perm.cons x (stable_sort-perm xs))
