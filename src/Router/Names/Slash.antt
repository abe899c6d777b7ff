-- ===== src/Router/Names/Slash.antt =====
-- Names of the form provider/model.
use Prim.Native.Char.{Char, code}
use Prim.Native.String.append
use Prim.Native.String.{◌++◌ as ◌+++◌}
use darkrouter.Base.{
  String, Bool, true, false, [], ◌∷◌, map, Option, none, some, Map, lookup, string_eq, ◌==◌,
  if◌then◌else◌, ◌≡◌, ◌↔◌, refl, sym, ap, subst, ◌∙◌, Bool-cases, inl, inr, ==_iff,
}
use darkrouter.Catalog.{Reader}
use darkrouter.Router.Names.{cut_slash, prepend, resolve_direct, offered_targets, configured}
use text.Mathlib.TextEquality.{Char-path}

-- No character of the text is a slash.
abbrev pub NoSlash : String → Type 0
NoSlash String.[] = Unit
NoSlash (String.◌∷◌ c s) = ((code c == b'/') ≡ false) × NoSlash s

-- The part of the name up to its first slash, and what follows it.
abbrev pub Splits : String → String → String → Type 0
Splits name prefix rest = (name ≡ prefix +++ ("/" +++ rest)) × NoSlash prefix

abbrev slash : Char
slash = "/"

slash_first : (rest : String) → "/" +++ rest ≡ String.◌∷◌ slash rest
slash_first rest = append.cons slash String.[] rest ∙ ap (String.◌∷◌ slash) (append.nil rest)

cut_head :
    (c : Char) (s : String) → (code c == b'/') ≡ true → cut_slash (String.◌∷◌ c s) ≡ some ("", s)
unfolding cut_slash
cut_head c s h = rw (h) refl

cut_later :
    (c : Char) (s : String)
    → (code c == b'/') ≡ false
    → cut_slash (String.◌∷◌ c s) ≡ prepend c (cut_slash s)
unfolding cut_slash
cut_later c s h = rw (h) refl

cut_slash-prefixed :
    (prefix rest : String)
    → NoSlash prefix
    → cut_slash (prefix +++ ("/" +++ rest)) ≡ some (prefix, rest)
cut_slash-prefixed String.[] rest h =
    ap cut_slash (append.nil ("/" +++ rest) ∙ slash_first rest) ∙ cut_head slash rest refl
cut_slash-prefixed (String.◌∷◌ c s) rest h =
    ap cut_slash (append.cons c s ("/" +++ rest))
    ∙ (cut_later c (s +++ ("/" +++ rest)) h.0 ∙ ap (prepend c) (cut_slash-prefixed s rest h.1))

-- What a cut says of the name.
abbrev Found : String → Option (String × String) → Type 0
Found name none = Unit
Found name (some (prefix, rest)) = Splits name prefix rest

Found-prepend :
    (c : Char) (s : String) (o : Option (String × String))
    → (code c == b'/') ≡ false
    → Found s o
    → Found (String.◌∷◌ c s) (prepend c o)
Found-prepend c s none h f = tt
Found-prepend c s (some (p, r)) h (e, n) =
    (ap (String.◌∷◌ c) e ∙ sym (append.cons c p ("/" +++ r)), (h, n))

slash_only : (c : Char) → (code c == b'/') ≡ true → c ≡ slash
slash_only c h = Char-path c slash ((==_iff (code c) b'/').0 h)

cut_slash-Found : (name : String) → Found name (cut_slash name)
cut_slash-Found String.[] = unfold cut_slash in tt
cut_slash-Found (String.◌∷◌ c s) = elim (Bool-cases (code c == b'/')) [
  | inl e ↦ subst (Found (String.◌∷◌ c s)) (sym (cut_head c s e)) (
    ap (λ d. String.◌∷◌ d s) (slash_only c e)
        ∙ (sym (slash_first s) ∙ sym (append.nil ("/" +++ s))),
    tt,
  )
  | inr e ↦
      subst (Found (String.◌∷◌ c s)) (sym (cut_later c s e))
        (Found-prepend c s (cut_slash s) e (cut_slash-Found s))
]

-- `strings.Cut` at a slash, against its description: it finds the pair exactly when the name is
-- the pair joined by a slash and the prefix has none.
pub cut_slash_iff :
    (name prefix rest : String) → (cut_slash name ≡ some (prefix, rest)) ↔ Splits name prefix rest
cut_slash_iff name prefix rest = (
  (λ e. subst (Found name) e (cut_slash-Found name)),
  λ h. ap cut_slash h.0 ∙ cut_slash-prefixed prefix rest h.1,
)

-- A name with a first slash: where the part before it is a configured provider, the target is
-- that provider and the rest of the name; otherwise the targets are the offers of the whole name,
-- slash included.
pub prefixed_name :
    (name prefix rest : String) (providers : Map String Bool) (cat : Reader)
    → Splits name prefix rest
    → resolve_direct name providers cat ≡ (
        if configured (lookup prefix providers)
        then record { provider_id = prefix; model_id = rest } ∷ []
        else map (λ id. record { provider_id = id; model_id = name }) (cat.offering name))
unfolding resolve_direct offered_targets
prefixed_name name prefix rest providers cat h =
    rw (resolve_direct, (cut_slash_iff name prefix rest).1 h) refl
