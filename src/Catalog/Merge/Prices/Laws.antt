-- ===== src/Catalog/Merge/Prices/Laws.antt =====
-- internal/catalog/merge.go: what the fill of cache rates leaves and what it takes.
use darkrouter.Base.{
  Bool, true, false, not, ◌&&◌, ◌||◌, List, [], ◌∷◌, Option, none, some, ℤ, ◌≡◌, refl, arith,
  if◌then◌else◌, Bool-cases, inl, inr, ◌∙◌, ap,
}
use darkrouter.Catalog.{Source}
use darkrouter.Catalog.Types.{Pricing}
use darkrouter.Catalog.Merge.Rows.{ModelRow}
use darkrouter.Catalog.Merge.Prices.{
  is_zero, fill_read, fill_write, fill_all, guess_read, with_unquoted_cache_rates,
}

-- A rate and the directory it was filled from, if it was.
abbrev pub Rate : Type 0
Rate = ℤ × Option Source

-- The rate of the first known price in which it is not zero, with that price's source.
abbrev pub listed : (Pricing → ℤ) → List Pricing → Rate → Rate
listed rate [] own = own
listed rate (c ∷ cs) own =
    if c.known && not (is_zero (rate c)) then (rate c, some c.source) else listed rate cs own

-- A rate that is quoted or not zero stands; else the directories are asked, and what they do not
-- state either is marked as a guess.
abbrev pub settled : (Pricing → ℤ) → Bool → List Pricing → Rate → Rate
settled rate quoted lower own =
    if quoted
    then own
    else if is_zero own.0
    then (let r = listed rate lower own in (r.0, guess_read false r.1))
    else (own.0, guess_read false own.1)

abbrev pub read_rate : Pricing → Rate
read_rate p = (p.cache_read_rate, p.cache_read_source)

abbrev pub write_rate : Pricing → Rate
write_rate p = (p.cache_write_rate, p.cache_write_source)

take : (Pricing → ℤ) → Bool → Pricing → Rate → Rate
take rate quoted c own =
    if c.known && (not quoted && (is_zero own.0 && not (is_zero (rate c))))
    then (rate c, some c.source)
    else own

take_all : (Pricing → ℤ) → Bool → List Pricing → Rate → Rate
take_all rate quoted [] own = own
take_all rate quoted (c ∷ cs) own = take_all rate quoted cs (take rate quoted c own)

take_all-keeps :
    (rate : Pricing → ℤ) (quoted : Bool) (lower : List Pricing) (own : Rate)
    → quoted || not (is_zero own.0) ≡ true
    → take_all rate quoted lower own ≡ own
unfolding take_all take
take_all-keeps rate quoted [] own h = refl
take_all-keeps rate quoted (c ∷ cs) own h = ground (arith, take_all-keeps rate quoted cs own h)

take_all-listed :
    (rate : Pricing → ℤ) (lower : List Pricing) (own : Rate)
    → is_zero own.0 ≡ true
    → take_all rate false lower own ≡ listed rate lower own
unfolding take_all take
take_all-listed rate [] own h = refl
take_all-listed rate (c ∷ cs) own h =
    ground
      (arith, take_all-listed rate cs own h, take_all-keeps rate false cs (rate c, some c.source))

take_all-settled :
    (rate : Pricing → ℤ) (quoted : Bool) (lower : List Pricing) (own : Rate)
    → own.1 ≡ none
    → let r = take_all rate quoted lower own in
      ◌≡◌ {A = Rate} (r.0, guess_read quoted r.1) (settled rate quoted lower own)
unfolding guess_read
take_all-settled rate true lower own h = ground (arith, take_all-keeps rate true lower own refl)
take_all-settled rate false lower own h =
    ground (arith, take_all-keeps rate false lower own, take_all-listed rate lower own)

-- Neither round touches what the row is charged for plain tokens, nor who says so.
abbrev pub Same : Pricing → Pricing → Type 0
Same p q =
    (p.input_rate ≡ q.input_rate)
    × (p.output_rate ≡ q.output_rate)
    × (p.known ≡ q.known)
    × (p.source ≡ q.source)
    × (p.resold ≡ q.resold)

module _ (row : ModelRow) where
  fill_all-read :
      (lower : List Pricing) (p : Pricing)
      → read_rate (fill_all row lower p)
        ≡ take_all (λ c. c.cache_read_rate) row.cache_read_known lower (read_rate p)
  unfolding fill_all take_all take fill_read fill_write
  fill_all-read [] p = refl
  fill_all-read (c ∷ cs) p =
      let q =
        if c.known
        then fill_write row.cache_write_known c (fill_read row.cache_read_known c p)
        else p in
      fill_all-read cs q
      ∙ ap (take_all (λ c. c.cache_read_rate) row.cache_read_known cs) (ground arith)

  fill_all-write :
      (lower : List Pricing) (p : Pricing)
      → write_rate (fill_all row lower p)
        ≡ take_all (λ c. c.cache_write_rate) row.cache_write_known lower (write_rate p)
  unfolding fill_all take_all take fill_read fill_write
  fill_all-write [] p = refl
  fill_all-write (c ∷ cs) p =
      let q =
        if c.known
        then fill_write row.cache_write_known c (fill_read row.cache_read_known c p)
        else p in
      fill_all-write cs q
      ∙ ap (take_all (λ c. c.cache_write_rate) row.cache_write_known cs) (ground arith)

  fill_all-Same : (lower : List Pricing) (p : Pricing) → Same (fill_all row lower p) p
  unfolding fill_all fill_read fill_write
  fill_all-Same [] p = (refl, refl, refl, refl, refl)
  fill_all-Same (c ∷ cs) p =
      let q =
        if c.known
        then fill_write row.cache_write_known c (fill_read row.cache_read_known c p)
        else p in
      ground (arith, fill_all-Same cs q)

abbrev mark : Bool → Rate → Rate
mark quoted r = (r.0, guess_read quoted r.1)

-- A row that is free at both rates takes nothing; any other has its two cache rates settled.
pub with_unquoted-settled :
    (p : Pricing) (row : ModelRow) (lower : List Pricing)
    → p.cache_read_source ≡ none
    → p.cache_write_source ≡ none
    → let q = with_unquoted_cache_rates p row lower in
      let free = is_zero row.input_rate && is_zero row.output_rate in
      Same q p
      × (read_rate q ≡ (
          if free
          then read_rate p
          else settled (λ c. c.cache_read_rate) row.cache_read_known lower (read_rate p)))
      × (write_rate q ≡ (
          if free
          then write_rate p
          else settled (λ c. c.cache_write_rate) row.cache_write_known lower (write_rate p)))
unfolding with_unquoted_cache_rates
with_unquoted-settled p row lower h k =
    elim (Bool-cases (is_zero row.input_rate && is_zero row.output_rate)) [
      | inl e ↦ rw e ((refl, refl, refl, refl, refl), refl, refl)
      | inr e ↦
          let same = fill_all-Same row lower p in
          let read =
            take_all-settled (λ c. c.cache_read_rate) row.cache_read_known lower (read_rate p) h in
          let write =
            take_all-settled (λ c. c.cache_write_rate) row.cache_write_known lower (write_rate p)
              k in
          rw e (
            same,
            ap (mark row.cache_read_known) (fill_all-read row lower p) ∙ read,
            ap (mark row.cache_write_known) (fill_all-write row lower p) ∙ write,
          )
    ]
