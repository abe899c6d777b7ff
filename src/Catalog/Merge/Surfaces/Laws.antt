-- ===== src/Catalog/Merge/Surfaces/Laws.antt =====
-- internal/catalog/merge.go: what surfaces a model can end up with.
use darkrouter.Base.{
  String, true, ◌&&◌, List, [], ◌∷◌, ◌==◌, ◌≡◌, ◌≢◌, refl, arith, All, str_eq, str_eq_iff, if_holds,
  Bool-cases, inl, inr, length, subst,
}
use darkrouter.Catalog.Merge.Surfaces.{
  all_surfaces, has_text, parse_surfaces, names_any, hinted, or_declared, model_surfaces, or_else,
  narrowed, surfaces_of, surface_hints,
}

-- Every text of the list is one of the others.
abbrev pub Within : List String → List String → Type 0
Within ts = All (λ s. has_text ts s ≡ true)

has_text_head : (s : String) (ts : List String) → has_text (s ∷ ts) s ≡ true
unfolding has_text
has_text_head s ts = ground (arith, str_eq_iff s s)

Within-cons : (t : String) (ts xs : List String) → Within ts xs → Within (t ∷ ts) xs
unfolding has_text
Within-cons t ts [] h = tt
Within-cons t ts (x ∷ xs) h = (ground (arith, h.0), Within-cons t ts xs h.1)

Within-refl : (ts : List String) → Within ts ts
Within-refl [] = tt
Within-refl (t ∷ ts) = (has_text_head t ts, Within-cons t ts ts (Within-refl ts))

has_text-Within :
    (xs ys : List String) (s : String) → Within ys xs → has_text xs s ≡ true → has_text ys s ≡ true
unfolding has_text
has_text-Within [] ys s h k = cc
has_text-Within (x ∷ xs) ys s h k = elim (Bool-cases (str_eq x s)) [
  | inl e ↦ subst (λ t. has_text ys t ≡ true) ((str_eq_iff x s).0 e) h.0
  | inr e ↦ has_text-Within xs ys s h.1 (ground (arith, e, k))
]

Within-trans : (xs ys zs : List String) → Within ys xs → Within zs ys → Within zs xs
Within-trans [] ys zs h k = tt
Within-trans (x ∷ xs) ys zs h k = (has_text-Within ys zs x k h.0, Within-trans xs ys zs h.1 k)

parse_surfaces-Within : (raw : List String) → Within all_surfaces (parse_surfaces raw)
unfolding parse_surfaces
parse_surfaces-Within [] = tt
parse_surfaces-Within (s ∷ ss) =
    if_holds (Within all_surfaces) (has_text all_surfaces s) _ _
      (λ e. (e, parse_surfaces-Within ss)) (λ e. parse_surfaces-Within ss)

hinted-Within :
    (id : String) (declared : List String) (hints : List (String × List String))
    → Within declared (hinted id declared hints)
unfolding hinted
hinted-Within id declared [] = tt
hinted-Within id declared ((surface, fragments) ∷ hints) =
    if_holds (Within declared) (has_text declared surface && names_any id fragments) _ _
      (λ e. (ground arith, hinted-Within id declared hints)) (λ e. hinted-Within id declared hints)

or_declared-Within :
    (declared found : List String)
    → Within declared found
    → Within declared (or_declared declared found)
unfolding or_declared
or_declared-Within declared [] h =
    if_holds (Within declared) (has_text declared "llm") _ _ (λ e. (e, tt))
      (λ e. Within-refl declared)
or_declared-Within declared (s ∷ ss) h = h

model_surfaces-Within :
    (id : String) (declared : List String) → Within declared (model_surfaces id declared)
unfolding model_surfaces
model_surfaces-Within id declared =
    if_holds (Within declared) (length declared == 1) _ _ (λ e. Within-refl declared)
      (λ e. or_declared-Within declared _ (hinted-Within id declared surface_hints))

narrowed-Within : (id : String) (declared : List String) → Within declared (narrowed id declared)
unfolding narrowed
narrowed-Within id [] = tt
narrowed-Within id (s ∷ ss) = model_surfaces-Within id (s ∷ ss)

-- The list has an element.
abbrev pub IsNonempty : List String → Type 0
IsNonempty xs = xs ≢ []

or_declared-IsNonempty :
    (declared found : List String) → IsNonempty declared → IsNonempty (or_declared declared found)
unfolding or_declared
or_declared-IsNonempty declared [] h =
    if_holds IsNonempty (has_text declared "llm") _ _ (λ e k. cc) (λ e. h)
or_declared-IsNonempty declared (s ∷ ss) h = λ k. cc

narrowed-IsNonempty : (id s : String) (ss : List String) → IsNonempty (narrowed id (s ∷ ss))
unfolding narrowed model_surfaces
narrowed-IsNonempty id s ss =
    let some_left : IsNonempty (s ∷ ss) = λ k. cc in
    if_holds IsNonempty (length (s ∷ ss) == 1) (s ∷ ss) _ (λ e. some_left)
      (λ e. or_declared-IsNonempty (s ∷ ss) _ some_left)

module _ (id : String) where
  -- The surfaces that the sources give, the preset's not narrowed.
  abbrev pub given : List String → List String → List String → List String
  given overridden preset row = or_else overridden (or_else preset (or_else row ("llm" ∷ [])))

  chosen : List String → List String → List String → List String
  chosen overridden preset row =
      or_else overridden (or_else (narrowed id preset) (or_else row ("llm" ∷ [])))

  narrowed_given :
      (preset row : List String)
      → IsNonempty (or_else (narrowed id preset) (or_else row ("llm" ∷ [])))
        × Within
            (or_else preset (or_else row ("llm" ∷ [])))
            (or_else (narrowed id preset) (or_else row ("llm" ∷ [])))
  unfolding or_else
  narrowed_given [] [] = unfold narrowed in (λ k. cc, (has_text_head "llm" [], tt))
  narrowed_given [] (r ∷ rs) = unfold narrowed in (λ k. cc, Within-refl (r ∷ rs))
  narrowed_given (p ∷ ps) row =
      first_found _ _ (narrowed-IsNonempty id p ps) (narrowed-Within id (p ∷ ps))
    where
      first_found :
          (xs ys : List String)
          → IsNonempty xs
          → Within (p ∷ ps) xs
          → IsNonempty (or_else xs ys) × Within (p ∷ ps) (or_else xs ys)
      first_found [] ys h k = absurd (h refl)
      first_found (x ∷ xs) ys h k = (h, k)

  chosen-given :
      (overridden preset row : List String)
      → IsNonempty (chosen overridden preset row)
        × Within (given overridden preset row) (chosen overridden preset row)
  unfolding chosen or_else
  chosen-given [] preset row = narrowed_given preset row
  chosen-given (o ∷ os) preset row = (λ k. cc, Within-refl (o ∷ os))

  given-Within :
      (overridden preset row : List String)
      → Within all_surfaces overridden
      → Within all_surfaces preset
      → Within all_surfaces row
      → Within all_surfaces (given overridden preset row)
  unfolding or_else
  given-Within (o ∷ os) preset row h k l = h
  given-Within [] (p ∷ ps) row h k l = k
  given-Within [] [] (r ∷ rs) h k l = l
  given-Within [] [] [] h k l = (has_text_head "llm" _, tt)

  -- A model has at least one surface, only surfaces of the vocabulary, and none but those that the
  -- first source to declare any gives it: the override, the preset, the row, or else chat.
  pub surfaces_of_bounds :
      (overridden preset row : List String)
      → let out = surfaces_of id overridden preset row in
        IsNonempty out
        × Within all_surfaces out
        × Within
            (given (parse_surfaces overridden) (parse_surfaces preset) (parse_surfaces row))
            out
  unfolding surfaces_of chosen
  surfaces_of_bounds overridden preset row =
      let o = parse_surfaces overridden in
      let p = parse_surfaces preset in
      let r = parse_surfaces row in
      let both = chosen-given o p r in
      let known =
        given-Within o p r (parse_surfaces-Within overridden) (parse_surfaces-Within preset)
          (parse_surfaces-Within row) in
      (both.0, Within-trans _ _ all_surfaces both.1 known, both.1)
