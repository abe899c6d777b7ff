-- ===== src/Health/Breaker/Signals.antt =====
-- What `Record` does to the entries of the triple it is told of, of its credential, and of others.
use darkrouter.Base.{
  str_eq, ℕ, ◌≡◌, ◌≢◌, refl, Bool, true, false, Option, none, some, lookup, arith, if◌then◌else◌,
  ◌≤◌,
}
use darkrouter.Adapter.{
  Outcome, success, retryable_provider, retryable_credential, retryable_model, fatal,
  client_cancelled, other, IsKnown,
}
use darkrouter.Health.Types.{
  Key, key_Eq, key_eq, key_eq_iff, key_eq_refl, key_eq_comm, cred_entry, Signal, State, Breaker,
}
use darkrouter.Health.Breaker.{
  release_probe, reset_locked, record_outcome, record_signal, available,
}
use darkrouter.Health.Breaker.Entries.{
  Unprobed, released, lookup-release_probe_locked, lookup-reset_locked, lookup-cool_locked,
  lookup-record_provider_failure, unprobed_rules,
}
use darkrouter.Health.Breaker.Gate.{admits, available-admits, cred_entry-ne}

-- A key that is neither the triple's own nor its credential's.
abbrev pub Unrelated : Key → Key → Type 0
Unrelated k j = (k ≢ j) × (cred_entry k ≢ j)

ruleset entry_laws = (
  lookup-release_probe_locked, lookup-reset_locked, lookup-cool_locked,
  lookup-record_provider_failure,
)

record_outcome_frame :
    (o : Outcome) (b : Breaker) (k j : Key) (s : Signal) (now : ℕ)
    → key_eq k j ≡ false
    → key_eq (cred_entry k) j ≡ false
    → lookup j (record_outcome o b k s now).m ≡ lookup j b.m
unfolding record_outcome release_probe
record_outcome_frame success b k j s now p q = simp (entry_laws, p, q)
record_outcome_frame fatal b k j s now p q = simp (entry_laws, p, q)
record_outcome_frame client_cancelled b k j s now p q = simp (entry_laws, p, q)
record_outcome_frame retryable_model b k j s now p q = simp (entry_laws, p, q)
record_outcome_frame retryable_credential b k j s now p q = simp (entry_laws, p, q)
record_outcome_frame retryable_provider b k j s now p q = simp (entry_laws, p, q)
record_outcome_frame (other _) b k j s now p q = refl

record_outcome_releases :
    (o : Outcome) (b : Breaker) (k : Key) (s : Signal) (now : ℕ)
    → IsKnown o
    → Unprobed (lookup k (record_outcome o b k s now).m)
      × Unprobed (lookup (cred_entry k) (record_outcome o b k s now).m)
unfolding record_outcome release_probe
record_outcome_releases success b k s now h = (search unprobed_rules, search unprobed_rules)
record_outcome_releases fatal b k s now h = (search unprobed_rules, search unprobed_rules)
record_outcome_releases client_cancelled b k s now h =
    (search unprobed_rules, search unprobed_rules)
record_outcome_releases retryable_model b k s now h = (search unprobed_rules, search unprobed_rules)
record_outcome_releases retryable_credential b k s now h =
    (search unprobed_rules, search unprobed_rules)
record_outcome_releases retryable_provider b k s now h =
    (search unprobed_rules, search unprobed_rules)
record_outcome_releases (other _) b k s now h = absurd h

-- `Record` releases the half-open probe on both entries that `Available` can claim it on, for
-- every outcome constant.
pub record_signal-Unprobed :
    (b : Breaker) (k : Key) (s : Signal) (now : ℕ)
    → IsKnown s.outcome
    → Unprobed (lookup k (record_signal b k s now).m)
      × Unprobed (lookup (cred_entry k) (record_signal b k s now).m)
unfolding record_signal
record_signal-Unprobed b k s now h = record_outcome_releases s.outcome b k s now h

-- `Record` touches only the entry of the triple and that of its credential.
pub record_signal_frame :
    (b : Breaker) (k j : Key) (s : Signal) (now : ℕ)
    → k ≢ j
    → cred_entry k ≢ j
    → lookup j (record_signal b k s now).m ≡ lookup j b.m
unfolding record_signal
record_signal_frame b k j s now p q =
    record_outcome_frame s.outcome b k j s now (ground (arith, key_eq_iff k j))
      (ground (arith, key_eq_iff (cred_entry k) j))

-- Either there is no entry or its cooldown has run out.
abbrev pub HasExpired : Option State → ℕ → Type 0
HasExpired none later = Unit {0}
HasExpired (some st) later = st.cooling_until ≤ later

expired-admits :
    (o : Option State) (later : ℕ) → Unprobed o → HasExpired o later → admits o later ≡ true
expired-admits none later u h = refl
expired-admits (some st) later u h = ground arith

-- No attempt leaves the breaker shut for good: once its outcome is recorded, the triple admits a
-- caller as soon as the cooldowns of its two entries have run out.
pub record_signal_reopens :
    (b : Breaker) (k : Key) (s : Signal) (now later : ℕ)
    → IsKnown s.outcome
    → HasExpired (lookup k (record_signal b k s now).m) later
    → HasExpired (lookup (cred_entry k) (record_signal b k s now).m) later
    → (available (record_signal b k s now) k later).1 ≡ true
record_signal_reopens b k s now later h own credential =
    let (u, v) = record_signal-Unprobed b k s now h in
    let b' = record_signal b k s now in
    rw (
      available-admits b' k later,
      expired-admits (lookup (cred_entry k) b'.m) later v credential,
      expired-admits (lookup k b'.m) later u own,
    )

if_same : (t : Bool) (o : Option State) → (if t then o else o) ≡ o
if_same true o = refl
if_same false o = refl

-- A success forgets both entries, so the triple is available at any time and starts a new ladder.
pub record_success_closes :
    (b : Breaker) (k : Key) (s : Signal) (now later : ℕ)
    → s.outcome ≡ success
    → (lookup k (record_signal b k s now).m ≡ none)
      × (lookup (cred_entry k) (record_signal b k s now).m ≡ none)
      × ((available (record_signal b k s now) k later).1 ≡ true)
unfolding record_signal record_outcome
record_success_closes b k s now later h =
    let b' = reset_locked (reset_locked b k) (cred_entry k) in
    let own : lookup k b'.m ≡ none = simp (lookup-reset_locked, key_eq_refl, if_same) in
    let credential : lookup (cred_entry k) b'.m ≡ none = simp (lookup-reset_locked, key_eq_refl) in
    rw h (own, credential, rw (available-admits b' k later, own, credential))

-- A request at fault is no proof about the credential: `Fatal` forgets the triple's own entry,
-- and of the credential's entry it gives back the probe and nothing else.
pub record_fatal_keeps_credential :
    (b : Breaker) (k : Key) (s : Signal) (now : ℕ)
    → s.outcome ≡ fatal
    → str_eq k.model "" ≡ false
    → (lookup k (record_signal b k s now).m ≡ none)
      × (lookup (cred_entry k) (record_signal b k s now).m ≡ released (lookup (cred_entry k) b.m))
unfolding record_signal record_outcome
record_fatal_keeps_credential b k s now h model = rw h (
  simp (entry_laws, cred_entry-ne k model) (rw (key_eq_refl k)),
  simp (entry_laws, key_eq_refl, key_eq_comm k (cred_entry k), cred_entry-ne k model),
)
