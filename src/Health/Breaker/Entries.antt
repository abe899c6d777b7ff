-- ===== src/Health/Breaker/Entries.antt =====
-- internal/health/breaker.go, entry by entry: what each locked operation leaves under a key.
use darkrouter.Base.{
  pos, incr, ltb_ℤ, leb_ℤ, ◌==◌, ℕ, ◌≡◌, refl, Bool, true, false, Option, none, some, ℤ, lookup,
  lookup-insert, beq_refl, insert, lookup-erase, Option-cases, inl, inr, arith, if◌then◌else◌,
}
use darkrouter.Health.Types.{Key, key_Eq, key_eq, key_eq_iff, Signal, State, Breaker, add_duration}
use darkrouter.Health.Cooldown.{cooldown_for}
use darkrouter.Health.Breaker.{
  release_probe_locked, reset_locked, cool_locked, get_locked, policy_locked,
  record_provider_failure,
}

-- No caller holds the half-open probe of the entry.
abbrev pub Unprobed : Option State → Type 0
Unprobed none = Unit {0}
Unprobed (some st) = st.probing ≡ false

abbrev pub released : Option State → Option State
released none = none
released (some st) = if st.probing then some (record st { probing = false }) else some st

pub released-Unprobed : (o : Option State) → Unprobed (released o)
released-Unprobed none = tt
released-Unprobed (some st) = ground arith

pub lookup-release_probe_locked :
    (b : Breaker) (k j : Key)
    → lookup j (release_probe_locked b k).m
      ≡ (if key_eq k j then released (lookup k b.m) else lookup j b.m)
unfolding release_probe_locked
lookup-release_probe_locked b k j = elim (Option-cases (lookup k b.m)) [
  | inl e ↦ ground (arith, e, key_eq_iff k j)
  | inr (st, e) ↦
      ground (arith, e, lookup-insert k j (record st { probing = false }) b.m, key_eq_iff k j)
]

pub lookup-reset_locked :
    (b : Breaker) (k j : Key)
    → lookup j (reset_locked b k).m ≡ (if key_eq k j then none else lookup j b.m)
unfolding reset_locked
lookup-reset_locked b k j = ground (arith, lookup-erase k j b.m, key_eq_iff k j)

-- What a trip at `level` makes of an entry.
abbrev pub cooled : Breaker → State → ℕ → ℤ → State
cooled b st now level = record st {
  cooling_until = add_duration now (pos (cooldown_for level (policy_locked b now).1));
  backoff_level = incr level;
  retry_after_only = false;
  probing = false;
}

pub lookup-cool_locked :
    (b : Breaker) (k j : Key) (st : State) (now : ℕ) (level : ℤ)
    → lookup j (cool_locked b k st now level).m
      ≡ (if key_eq k j then some (cooled b st now level) else lookup j b.m)
unfolding cool_locked
lookup-cool_locked b k j st now level = lookup-insert k j (cooled b st now level) b.m

-- What `OutcomeRetryableProvider` makes of an entry.
unfoldable pub provider_failed : Breaker → State → Signal → ℕ → State
provider_failed b st s now =
    let (trip_after, max) = policy_locked b now in
    let failed = record st {
      consecutive_failures = incr st.consecutive_failures;
      probing = false;
    } in
    if s.has_retry_after
    then record st {
      cooling_until =
          add_duration now (if ltb_ℤ (pos max) s.retry_after then pos max else s.retry_after);
      retry_after_only = true;
      probing = false;
    }
    else if s.status_code == 429
    then cooled b st now st.backoff_level
    else if leb_ℤ (pos trip_after) failed.consecutive_failures
    then cooled b failed now failed.backoff_level
    else failed

pub record_provider_failure_lem :
    (b : Breaker) (k : Key) (s : Signal) (now : ℕ)
    → record_provider_failure b k s now
      ≡ record b { m = insert k (provider_failed b (get_locked b k) s now) b.m; dirty = true }
unfolding record_provider_failure provider_failed
record_provider_failure_lem b k s now = ground arith

pub lookup-record_provider_failure :
    (b : Breaker) (k j : Key) (s : Signal) (now : ℕ)
    → lookup j (record_provider_failure b k s now).m
      ≡ (if key_eq k j then some (provider_failed b (get_locked b k) s now) else lookup j b.m)
lookup-record_provider_failure b k j s now =
    rw (record_provider_failure_lem b k s now) (lookup-insert k j _ b.m)

pub provider_failed_Unprobed :
    (b : Breaker) (st : State) (s : Signal) (now : ℕ) → (provider_failed b st s now).probing ≡ false
unfolding provider_failed
provider_failed_Unprobed b st s now = ground arith

-- Each operation leaves its own entry unprobed, and keeps an entry unprobed that is so.
pub release-Unprobed_self :
    (b : Breaker) (k : Key) → Unprobed (lookup k (release_probe_locked b k).m)
release-Unprobed_self b k =
    rw (lookup-release_probe_locked b k k, beq_refl k) (released-Unprobed (lookup k b.m))

if_Unprobed :
    (t : Bool) (o p : Option State) → Unprobed o → Unprobed p → Unprobed (if t then o else p)
if_Unprobed true o p h g = h
if_Unprobed false o p h g = g

pub release-Unprobed :
    (b : Breaker) (k j : Key)
    → Unprobed (lookup j b.m)
    → Unprobed (lookup j (release_probe_locked b k).m)
release-Unprobed b k j h =
    rw (lookup-release_probe_locked b k j)
      (if_Unprobed (key_eq k j) _ _ (released-Unprobed (lookup k b.m)) h)

pub reset-Unprobed_self : (b : Breaker) (k : Key) → Unprobed (lookup k (reset_locked b k).m)
reset-Unprobed_self b k = rw (lookup-reset_locked b k k, beq_refl k) tt

pub reset-Unprobed :
    (b : Breaker) (k j : Key) → Unprobed (lookup j b.m) → Unprobed (lookup j (reset_locked b k).m)
reset-Unprobed b k j h = rw (lookup-reset_locked b k j) (if_Unprobed (key_eq k j) _ _ tt h)

pub cool-Unprobed_self :
    (b : Breaker) (k : Key) (st : State) (now : ℕ) (level : ℤ)
    → Unprobed (lookup k (cool_locked b k st now level).m)
cool-Unprobed_self b k st now level = rw (lookup-cool_locked b k k st now level, beq_refl k) refl

pub cool-Unprobed :
    (b : Breaker) (k j : Key) (st : State) (now : ℕ) (level : ℤ)
    → Unprobed (lookup j b.m)
    → Unprobed (lookup j (cool_locked b k st now level).m)
cool-Unprobed b k j st now level h =
    rw (lookup-cool_locked b k j st now level) (if_Unprobed (key_eq k j) _ _ refl h)

pub failure-Unprobed_self :
    (b : Breaker) (k : Key) (s : Signal) (now : ℕ)
    → Unprobed (lookup k (record_provider_failure b k s now).m)
failure-Unprobed_self b k s now =
    rw (lookup-record_provider_failure b k k s now, beq_refl k)
      (provider_failed_Unprobed b (get_locked b k) s now)

pub failure-Unprobed :
    (b : Breaker) (k j : Key) (s : Signal) (now : ℕ)
    → Unprobed (lookup j b.m)
    → Unprobed (lookup j (record_provider_failure b k s now).m)
failure-Unprobed b k j s now h =
    rw (lookup-record_provider_failure b k j s now)
      (if_Unprobed (key_eq k j) _ _ (provider_failed_Unprobed b (get_locked b k) s now) h)

pub ruleset unprobed_rules = (
  release-Unprobed_self, release-Unprobed, reset-Unprobed_self, reset-Unprobed, cool-Unprobed_self,
  cool-Unprobed, failure-Unprobed_self, failure-Unprobed,
)
