-- ===== src/Router/Names.antt =====
-- internal/router/model.go: from a requested name to targets.
pub mod Slash
use Prim.Native.Char.{Char, code}
use darkrouter.Base.{
  String, Bool, false, not, List, [], ◌∷◌, ◌++◌, map, Option, none, some, Map, lookup, string_eq,
  str_eq, ◌==◌, if◌then◌else◌,
}
use darkrouter.Catalog.{Reader}
use darkrouter.Router.Types.{Target}

abbrev pub prepend : Char → Option (String × String) → Option (String × String)
prepend c none = none
prepend c (some (p, r)) = some (String.◌∷◌ c p, r)

-- strings.Cut(name, "/")
unfoldable pub cut_slash : String → Option (String × String)
cut_slash String.[] = none
cut_slash (String.◌∷◌ c s) =
    let rest = cut_slash s in if code c == b'/' then some ("", s) else prepend c rest

-- providers[prefix]
abbrev pub configured : Option Bool → Bool
configured none = false
configured (some b) = b

abbrev pub target_of : String → String → Target
target_of name id = record { provider_id = id; model_id = name }

-- Rule 3: every enabled provider that offers the name.
unfoldable pub offered_targets : String → Reader → List Target
offered_targets name cat = map (target_of name) (cat.offering name)

unfoldable pub resolve_direct : String → Map String Bool → Reader → List Target
unfolding cut_slash offered_targets
resolve_direct name providers cat = elim (cut_slash name) [
  | none ↦ offered_targets name cat
  | some (prefix, rest) ↦
      if configured (lookup prefix providers)
      then record { provider_id = prefix; model_id = rest } ∷ []
      else offered_targets name cat
]

unfoldable pub alias_for : String → Map String (List String) → String
alias_for name aliases = elim (lookup name aliases) [ none ↦ "" | some _ ↦ name ]

unfoldable pub resolve_entries : List String → Map String Bool → Reader → List Target
resolve_entries [] providers cat = []
resolve_entries (entry ∷ rest) providers cat =
    resolve_direct entry providers cat ++ resolve_entries rest providers cat

-- aliases[alias]
abbrev pub entries_of : Option (List String) → List String
entries_of none = []
entries_of (some es) = es

unfoldable pub resolve_model :
    String → Map String (List String) → Map String Bool → Reader → List Target × String
unfolding alias_for resolve_entries
resolve_model name aliases providers cat =
    let alias = alias_for name aliases in
    if not (str_eq alias "")
    then (resolve_entries (entries_of (lookup alias aliases)) providers cat, alias)
    else (resolve_direct name providers cat, "")
