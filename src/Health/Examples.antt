-- ===== src/Health/Examples.antt =====
-- The breaker's theorems at one provider, with one credential and two models.
use darkrouter.Base.{
  inl, ℕ, ◌≡◌, ◌≢◌, refl, ap, inr, arith, insert, erase, true, false, ◌&&◌, List, [], ◌∷◌, none,
  some, ℤ, pos, lookup, str_eq,
}
use darkrouter.Adapter.{success, retryable_provider, fatal}
use darkrouter.Health.Types.{Key, key_Eq, cred_entry, Signal, key_eq, State, zero_state, Breaker}
use darkrouter.Health.Breaker.{
  configure, available, record_signal, new, snapshot, rehydrate, take_dirty, policy_locked,
  available_locked, available_entry, available_model, unclaim, record_outcome,
  record_provider_failure, release_probe_locked, cool_locked, get_locked,
}
use darkrouter.Health.Breaker.Entries.{released}
use darkrouter.Health.Breaker.Signals.{record_signal_reopens}
use darkrouter.Health.Breaker.Gate.{admits, available-admits}
use darkrouter.Health.Breaker.Probe.{Gates}
use darkrouter.Health.Breaker.Exclusive.{Call, asks, releases, perform_all, available_once}
use darkrouter.Health.Availability.{frozen_available, snapshot_availability, available-frozen}
use darkrouter.Health.Persist.Dirty.{call, run, availables, SamePersisted, run-SamePersisted}
use darkrouter.Health.Persist.Restart.{after_restart, lookup-rehydrate-snapshot}
use darkrouter.Health.RetryAfter.{parse_retry_after, of_atoi, seconds}
use darkrouter.Health.RetryAfter.Overflow.{overflow_not_cooled}

abbrev fast : Key
fast = record { provider_id = "acme"; key_id = "k1"; model = "fast" }

abbrev smart : Key
smart = record { provider_id = "acme"; key_id = "k1"; model = "smart" }

-- Tripped by the ladder until the instant 100.
abbrev tripped : State
tripped = record zero_state { cooling_until = 100; backoff_level = pos 1 }

abbrev breaker_of : List (Key × State) → Breaker
breaker_of m = record {
  m = m;
  last_used = [];
  trip_after = 2;
  max = 3600000000000;
  policy = none;
  dirty = false;
}

abbrev one_tripped : Breaker
one_tripped = breaker_of ((fast, tripped) ∷ [])

-- The credential itself is tripped.
abbrev key_tripped : Breaker
key_tripped = breaker_of ((cred_entry fast, tripped) ∷ [])

abbrev failure : ℕ → Signal
failure status = record {
  outcome = retryable_provider;
  status_code = status;
  retry_after = pos 0;
  has_retry_after = false;
}

abbrev asking : ℤ → Signal
asking d = record {
  outcome = retryable_provider;
  status_code = 429;
  retry_after = d;
  has_retry_after = true;
}

abbrev ok : Signal
ok = record { outcome = success; status_code = 200; retry_after = pos 0; has_retry_after = false }

abbrev bad_request : Signal
bad_request = record {
  outcome = fatal;
  status_code = 400;
  retry_after = pos 0;
  has_retry_after = false;
}

fast-ne-smart : fast ≢ smart
fast-ne-smart e = absurd (cc (ap (λ (k : Key). str_eq k.model "fast") e))

key-ne-smart : cred_entry fast ≢ smart
key-ne-smart e = absurd (cc (ap (λ (k : Key). str_eq k.model "smart") e))

abbrev other_key : Key
other_key = record { provider_id = "acme"; key_id = "k2"; model = "fast" }

other_key_apart : ¬ Gates other_key (cred_entry fast)
other_key_apart (inl e) = absurd (cc (ap (λ (k : Key). str_eq k.key_id "k2") e))
other_key_apart (inr e) = absurd (cc (ap (λ (k : Key). str_eq k.key_id "k2") e))

abbrev others : List Call
others = asks smart 210 ∷ asks fast 220 ∷ asks other_key 230 ∷ releases other_key ∷ []

available_once_example :
    (available (perform_all others (available key_tripped fast 200).0) smart 300).1 ≡ false
unfolding lookup key_eq available available_model available_locked available_entry unclaim insert
    erase
available_once_example =
    available_once key_tripped fast smart (cred_entry fast) 200 300 others (inr refl) (inr refl)
      ((λ e. omega (arith, e)), refl) refl (tt, (tt, (tt, (other_key_apart, tt))))

record_signal_reopens_example :
    (available (record_signal (available one_tripped fast 200).0 fast (failure 500) 200) fast 900).1
    ≡ true
unfolding lookup key_eq available available_model available_locked available_entry unclaim insert
    erase record_signal record_outcome record_provider_failure release_probe_locked policy_locked
    cool_locked get_locked
record_signal_reopens_example =
    record_signal_reopens (available one_tripped fast 200).0 fast (failure 500) 200 900 tt
      (omega arith) tt

available-admits_example : (available one_tripped fast 200).1 ≡ (
    admits (lookup (cred_entry fast) one_tripped.m) 200 && admits (lookup fast one_tripped.m) 200)
available-admits_example = available-admits one_tripped fast 200

-- With the policy of the server's settings.
abbrev configured : Breaker
configured = configure (breaker_of []) (λ at. (pos 2, pos 3600000000000))

available-frozen_example : frozen_available (snapshot_availability one_tripped 200) fast ≡ true
unfolding lookup key_eq available available_model available_locked available_entry unclaim insert
    erase
available-frozen_example = available-frozen one_tripped 200 fast (refl, tt) refl

run-SamePersisted_example :
    SamePersisted one_tripped (run (take_dirty one_tripped).0 (availables fast 200 ∷ []))
unfolding lookup key_eq available available_model available_locked available_entry unclaim insert
    erase run call take_dirty
run-SamePersisted_example = run-SamePersisted one_tripped (availables fast 200 ∷ []) refl

lookup-rehydrate-snapshot_example :
    lookup fast (rehydrate (new (pos 2) (pos 60)) (snapshot one_tripped) 50).m
    ≡ after_restart (lookup fast one_tripped.m) 50
unfolding lookup key_eq available available_model available_locked available_entry unclaim insert
    erase
lookup-rehydrate-snapshot_example =
    lookup-rehydrate-snapshot one_tripped (pos 2) (pos 60) fast 50 (refl, tt)

overflow_not_cooled_example :
    (available (record_signal one_tripped fast (asking (seconds 10000000000)) 200) fast 200).1
    ≡ admits (released (lookup (cred_entry fast) one_tripped.m)) 200
unfolding parse_retry_after of_atoi seconds
overflow_not_cooled_example =
    overflow_not_cooled (λ h. h) (λ h. some (pos 10000000000)) (λ h. none) "10000000000" 10000000000
      one_tripped fast (asking (seconds 10000000000)) 200 refl refl (omega arith) refl refl refl
      refl
