-- ===== src/Catalog/Join/Ladder.antt =====
-- internal/catalog/normalize.go and `JoinLiteLLM`: the record found does not depend on the order in
-- which a directory's ids are iterated.
use mathlib.Core.List.{Permᴰ}
use mathlib.Core.Path.{fun_ext, ap₂}
use darkrouter.Base.{
  subst, String, true, false, List, [], ◌∷◌, Option, none, some, Map, lookup, Distinct, string_eq,
  str_eq, str_eq_iff, str_lt, str_lt-asymm, str_lt_trans, str_lt-total, stable_sort_perm, Apart,
  if◌then◌else◌, ◌≡◌, ◌⊎◌, refl, sym, ◌∙◌, arith, All, Avoids, leaf, trim_space, leaf_from-Avoids,
  replace_char-Avoids, replace_char-keeps,
}
use darkrouter.Catalog.Join.{ids_of, first_alike, by_normal_form, climb, normalize_model_id, dash}

-- A normalised id has neither a path nor a tag separator.
pub normalize_plain :
    (to_lower : String → String) (id : String)
    → Avoids b'/' (normalize_model_id to_lower id) × Avoids b':' (normalize_model_id to_lower id)
unfolding normalize_model_id leaf
normalize_plain to_lower id = (
  replace_char-keeps b':' b'/' dash (leaf (to_lower (trim_space id))) refl
      (leaf_from-Avoids (to_lower (trim_space id)) (to_lower (trim_space id)) (λ a. a)),
  replace_char-Avoids b':' dash (leaf (to_lower (trim_space id))) refl,
)

text_le_trans : (a b c : String) → str_lt b a ≡ false → str_lt c b ≡ false → str_lt c a ≡ false
text_le_trans a b c h k = ground (arith, str_lt-total b a, str_lt_trans c a b, str_lt-asymm a b)

module _ {A : Type 0} where
  lookup-cons :
      (k j : String) (v : A) (m : Map String A)
      → lookup k ((j, v) ∷ m) ≡ (if str_eq j k then some v else lookup k m)
  unfolding lookup
  lookup-cons k j v m = refl

  swapped :
      (i j : String) (v w : A) (l : Map String A)
      → lookup i ((j, w) ∷ l) ≡ none
      → lookup j l ≡ none
      → ((k : String) → lookup k ((i, v) ∷ (j, w) ∷ l) ≡ lookup k ((j, w) ∷ (i, v) ∷ l))
        × (lookup j ((i, v) ∷ l) ≡ none)
        × (lookup i l ≡ none)
  swapped i j v w l h n = (
    λ k. ground (
      arith,
      lookup-cons k i v ((j, w) ∷ l),
      lookup-cons k j w ((i, v) ∷ l),
      lookup-cons k j w l,
      lookup-cons k i v l,
      lookup-cons i j w l,
      str_eq_iff i k,
      str_eq_iff j k,
      str_eq_iff j i,
    ),
    ground (arith, lookup-cons j i v l, lookup-cons i j w l, str_eq_iff i j, str_eq_iff j i),
    ground (arith, lookup-cons i j w l),
  )

  abbrev SameEntries : Map String A → Map String A → Type 0
  SameEntries m m' = ((k : String) → lookup k m ≡ lookup k m') × Distinct m'

  -- A permutation of a map has the same entries, one for a key.
  reordered : {m m' : Map String A} → Permᴰ m m' → Distinct m → SameEntries m m'
  unfolding lookup
  reordered Permᴰ.nil d = (λ k. refl, d)
  reordered (Permᴰ.cons {a = (i, v)} e p) d =
      let ih = reordered p d.1 in rw (← e) (λ k. rw (ih.0 k) refl, (sym (ih.0 i) ∙ d.0, ih.1))
  reordered (Permᴰ.swap {a = (i, v)} {b = (j, w)} {b' = b'} {l = l} e f) d =
      let s = swapped i j v w l d.0 d.1.0 in
      subst (λ (x : String × A). SameEntries ((i, v) ∷ (j, w) ∷ l) (x ∷ b' ∷ l)) f
        (subst (λ (y : String × A). SameEntries ((i, v) ∷ (j, w) ∷ l) ((j, w) ∷ y ∷ l)) e
          (s.0, (s.1, (s.2, d.1.1))))
  reordered (Permᴰ.trans p q) d =
      let first = reordered p d in
      let second = reordered q first.1 in (λ k. first.0 k ∙ second.0 k, second.1)

  ids_of-perm : {m m' : Map String A} → Permᴰ m m' → Permᴰ (ids_of m) (ids_of m')
  unfolding ids_of
  ids_of-perm Permᴰ.nil = Permᴰ.nil
  ids_of-perm (Permᴰ.cons {a = (i, v)} {b = (j, w)} e p) = Permᴰ.cons (cc) (ids_of-perm p)
  ids_of-perm (Permᴰ.swap {a = (i, v)} {b = (j, w)} {a' = (i', v')} {b' = (j', w')} e f) =
      Permᴰ.swap (cc) (cc)
  ids_of-perm (Permᴰ.trans p q) = Permᴰ.trans (ids_of-perm p) (ids_of-perm q)

  absent-Told :
      (k : String) (m : Map String A)
      → lookup k m ≡ none
      → All (λ j. (str_lt k j ≡ true) ⊎ (str_lt j k ≡ true)) (ids_of m)
  unfolding lookup ids_of
  absent-Told k [] h = tt
  absent-Told k ((j, v) ∷ m) h =
      (ground (arith, str_eq_iff j k, str_lt-total k j), absent-Told k m (ground (arith)))

  Distinct-Apart :
      (m : Map String A) → Distinct m → Apart str_lt str_lt-asymm text_le_trans (ids_of m)
  unfolding ids_of
  Distinct-Apart [] d = tt
  Distinct-Apart ((k, v) ∷ m) d = (absent-Told k m d.0, Distinct-Apart m d.1)

  -- The ladder over a lookup and the sorted ids.
  found :
      (String → String) → Map String String → String → (String → Option A) → List String → Option A
  found to_lower aliases id get ids =
      let want = normalize_model_id to_lower id in
      let alike : Option A =
        (if str_eq want ""
          then none
          else elim (first_alike to_lower want ids) [ none ↦ none | some i ↦ get i ]) in
      let exact : Option A = elim (get id) [ some a ↦ some a | none ↦ alike ] in
      elim (lookup id aliases) [
        | none ↦ exact
        | some alias ↦ elim (get alias) [ some a ↦ some a | none ↦ exact ]
      ]

  module _ (to_lower : String → String) (aliases : Map String String) (id : String) where
    -- The record that the ladder finds depends on the entries of the provider's bucket alone, not
    -- on the order in which the map gives them.
    pub climb_reproducible :
        {m m' : Map String A}
        → Permᴰ m m'
        → Distinct m
        → climb to_lower aliases m id ≡ climb to_lower aliases m' id
    unfolding climb by_normal_form found
    climb_reproducible {m} {m'} p d =
        let same = fun_ext (reordered p d).0 in
        let ids =
          stable_sort_perm str_lt str_lt-asymm text_le_trans (ids_of-perm p) (Distinct-Apart m d) in
        ap₂ (found to_lower aliases id) same ids
