-- ===== src/Health/Availability.antt =====
-- internal/health/availability.go: the view of the breaker that the router filters on.
use darkrouter.Base.{
  ℕ, ◌≡◌, refl, Bool, true, false, not, ◌&&◌, ◌||◌, List, [], ◌∷◌, Option, none, some, Map, lookup,
  Distinct, ltb, ◌==◌, str_eq, Bool-cases, inl, inr, arith, if◌then◌else◌,
}
use darkrouter.Health.Types.{Key, key_Eq, key_eq, key_eq_iff, cred_entry, State, Breaker}
use darkrouter.Health.Breaker.{available}
use darkrouter.Health.Breaker.Gate.{admits, cred_entry-eq, available-admits}

pub record Availability : Type 0 where
  pub unavailable : List Key

-- _, cooling := a.unavailable[k]
unfoldable pub contains : List Key → Key → Bool
contains [] k = false
contains (j ∷ ks) k = key_eq j k || contains ks k

abbrev is_empty : List Key → Bool
is_empty [] = true
is_empty (_ ∷ _) = false

-- `Available` of a frozen view.
unfoldable pub frozen_available : Availability → Key → Bool
unfolding contains
frozen_available a k =
    if is_empty a.unavailable
    then true
    else if not (str_eq k.model "") && contains a.unavailable (cred_entry k)
    then false
    else not (contains a.unavailable k)

-- The loop over the entries: those that are cooling at the instant are kept.
unfoldable pub cooling_keys : Map Key State → ℕ → List Key
cooling_keys [] at = []
cooling_keys ((k, st) ∷ m) at =
    let rest = cooling_keys m at in
    if st.cooling_until == 0 || not (ltb at st.cooling_until) then rest else k ∷ rest

unfoldable pub snapshot_availability : Breaker → ℕ → Availability
unfolding cooling_keys
snapshot_availability b at = record { unavailable = cooling_keys b.m at }

-- The entry is not in a cooldown at the instant.
abbrev pub is_open : Option State → ℕ → Bool
is_open none at = true
is_open (some st) at = st.cooling_until == 0 || not (ltb at st.cooling_until)

contains-cooling_keys :
    (m : Map Key State) (at : ℕ) (k : Key)
    → Distinct m
    → contains (cooling_keys m at) k ≡ not (is_open (lookup k m) at)
unfolding contains cooling_keys lookup
contains-cooling_keys [] at k d = refl
contains-cooling_keys ((j, st) ∷ m) at k d =
    ground (arith, contains-cooling_keys m at k d.1, key_eq_iff j k, d.0)

frozen_contains :
    (ks : List Key) (k : Key)
    → frozen_available (record { unavailable = ks }) k
      ≡ (not (contains ks (cred_entry k)) && not (contains ks k))
unfolding frozen_available
frozen_contains [] k = refl
frozen_contains (j ∷ ks) k = elim (Bool-cases (str_eq k.model "")) [
  | inl bare ↦ rw (bare, cred_entry-eq k bare) (ground arith)
  | inr model ↦ rw model (ground arith)
]

not-not : (t : Bool) → not (not t) ≡ t
not-not true = refl
not-not false = refl

-- A frozen view says of a triple what its two entries said at the instant: neither is cooling.
pub frozen-is_open :
    (b : Breaker) (at : ℕ) (k : Key)
    → Distinct b.m
    → frozen_available (snapshot_availability b at) k
      ≡ (is_open (lookup (cred_entry k) b.m) at && is_open (lookup k b.m) at)
unfolding snapshot_availability
frozen-is_open b at k d = rw (
  frozen_contains (cooling_keys b.m at) k,
  contains-cooling_keys b.m at (cred_entry k) d,
  contains-cooling_keys b.m at k d,
  not-not (is_open (lookup (cred_entry k) b.m) at),
  not-not (is_open (lookup k b.m) at),
)

admits-is_open : (o : Option State) (at : ℕ) → admits o at ≡ true → is_open o at ≡ true
admits-is_open none at h = refl
admits-is_open (some st) at h = ground arith

-- The live breaker admits no caller that the view frozen at the same instant turns away: the
-- candidates that the router drops for cooling are ones that an attempt would be refused.
pub available-frozen :
    (b : Breaker) (at : ℕ) (k : Key)
    → Distinct b.m
    → (available b k at).1 ≡ true
    → frozen_available (snapshot_availability b at) k ≡ true
available-frozen b at k d h = ground (
  arith,
  frozen-is_open b at k d,
  available-admits b k at,
  admits-is_open (lookup k b.m) at,
  admits-is_open (lookup (cred_entry k) b.m) at,
)
