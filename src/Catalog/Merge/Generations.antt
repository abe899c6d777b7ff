-- ===== src/Catalog/Merge/Generations.antt =====
-- internal/catalog/merge.go: `traitsFor` takes the longest rule that matches.
use darkrouter.Base.{
  ℕ, ◌<◌, ◌≤◌, String, true, false, List, ◌∷◌, ◌++◌, Option, none, some, ◌≡◌, All, len,
}
use darkrouter.Catalog.Types.{Traits}
use darkrouter.Catalog.Preset.{Preset, TraitRule}
use darkrouter.Catalog.Merge.{rule_matches, plain_name, traits_of}

-- A match of this length is longer than the longest so far, if there is one; or there is one that
-- is as long.
abbrev pub Exceeds : Option ℕ → ℕ → Type 0
Exceeds none n = Unit {0}
Exceeds (some m) n = m < n

abbrev pub Within : Option ℕ → ℕ → Type 0
Within none n = ⊥
Within (some m) n = n ≤ m

module _ (to_lower : String → String) (name : String) where
  abbrev pub size : TraitRule → ℕ
  size r = len (plain_name to_lower r.match_text)

  -- A rule that matches is not longer than `best`.
  pub data NotLonger (best : Option ℕ) (r : TraitRule) : Type 0 where
    unmatched : rule_matches to_lower name r ≡ false → NotLonger best r
    shorter : Within best (size r) → NotLonger best r

  pub data Shorter (n : ℕ) (r : TraitRule) : Type 0 where
    no_match : rule_matches to_lower name r ≡ false → Shorter n r
    below : size r < n → Shorter n r

  -- What the scan of the rules returns, from the longest match so far and its traits.
  pub data Scanned (rules : List TraitRule) (best : Option ℕ) (out : Traits) (t : Traits)
      : Type 0 where
    kept : All (NotLonger best) rules → t ≡ out → Scanned rules best out t
    found :
        (pre : List TraitRule) (r : TraitRule) (post : List TraitRule)
        → rules ≡ pre ++ r ∷ post
        → rule_matches to_lower name r ≡ true
        → Exceeds best (size r)
        → All (Shorter (size r)) pre
        → All (NotLonger (some (size r))) post
        → t ≡ traits_of r
        → Scanned rules best out t
