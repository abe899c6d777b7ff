-- ===== src/Health/Breaker/Trips.antt =====
-- How a provider's failures cool a triple: rate limits, Retry-After, and failures in a row.
use darkrouter.Base.{
  ap, ◌&&◌, subst, sym, ℕ, ◌+◌, ◌≡◌, refl, true, false, Option, none, some, ℤ, pos, incr, ltb_ℤ,
  lookup, arith, if◌then◌else◌, str_eq, leb,
}
use darkrouter.Adapter.{retryable_provider}
use darkrouter.Health.Types.{
  Key, key_Eq, key_eq_refl, key_eq_comm, cred_entry, Signal, State, zero_state, Breaker,
  add_duration,
}
use darkrouter.Health.Cooldown.{cooldown_for}
use darkrouter.Health.Breaker.{
  release_probe_locked, get_locked, record_outcome, record_signal, policy_locked, available,
}
use darkrouter.Health.Breaker.Entries.{
  cooled, provider_failed, released, lookup-record_provider_failure, lookup-release_probe_locked,
}
use darkrouter.Health.Breaker.Gate.{admits, cred_entry-ne, available-admits}

-- The entry that a call of `Record` starts from.
abbrev pub current : Option State → State
current none = zero_state
current (some st) = st

get_locked-current : (b : Breaker) (k : Key) → get_locked b k ≡ current (lookup k b.m)
unfolding get_locked
get_locked-current b k = ground arith

policy_release :
    (b : Breaker) (k : Key) (now : ℕ)
    → policy_locked (release_probe_locked b k) now ≡ policy_locked b now
unfolding policy_locked release_probe_locked
policy_release b k now = ground arith

provider_failed-release :
    (b : Breaker) (k : Key) (st : State) (s : Signal) (now : ℕ)
    → provider_failed (release_probe_locked b k) st s now ≡ provider_failed b st s now
unfolding provider_failed
provider_failed-release b k st s now = rw (policy_release b k now)

-- A provider's failure, read off the triple's own entry.
pub provider_entry :
    (b : Breaker) (k : Key) (s : Signal) (now : ℕ)
    → s.outcome ≡ retryable_provider
    → str_eq k.model "" ≡ false
    → lookup k (record_signal b k s now).m ≡ some (provider_failed b (current (lookup k b.m)) s now)
unfolding record_signal record_outcome
provider_entry b k s now h model =
    let b1 = release_probe_locked b (cred_entry k) in
    subst
      (λ o.
        lookup k (record_outcome o b k s now).m
        ≡ some (provider_failed b (current (lookup k b.m)) s now))
      (sym h)
      (rw (
        lookup-record_provider_failure b1 k k s now,
        key_eq_refl k,
        get_locked-current b1 k,
        lookup-release_probe_locked b (cred_entry k) k,
        cred_entry-ne k model,
        provider_failed-release b (cred_entry k) (current (lookup k b.m)) s now,
      ))

-- The wait that the breaker takes from a Retry-After: what the provider asked for, at most the
-- configured maximum.
abbrev pub asked : Breaker → Signal → ℕ → ℤ
asked b s now =
    let max = (policy_locked b now).1 in
    if ltb_ℤ (pos max) s.retry_after then pos max else s.retry_after

-- What a Retry-After makes of an entry.
abbrev pub waiting : Breaker → State → Signal → ℕ → State
waiting b st s now = record st {
  cooling_until = add_duration now (asked b s now);
  retry_after_only = true;
  probing = false;
}

pub window-admits :
    (st : State) (later : ℕ)
    → st.probing ≡ false
    → admits (some st) later ≡ leb st.cooling_until later
window-admits st later h = ground arith

-- A Retry-After is taken on a 429 and on any other status alike.
record_retry_after :
    (b : Breaker) (k : Key) (s : Signal) (now : ℕ)
    → s.outcome ≡ retryable_provider
    → str_eq k.model "" ≡ false
    → s.has_retry_after ≡ true
    → lookup k (record_signal b k s now).m ≡ some (waiting b (current (lookup k b.m)) s now)
record_retry_after b k s now h model ra =
    rw (provider_entry b k s now h model) (unfold provider_failed in rw ra)

-- A 429 without a Retry-After cools at once, whatever the count of failures: at the entry's
-- level, for the ladder's cooldown, and it moves the ladder up by one.
record_rate_limit :
    (b : Breaker) (k : Key) (s : Signal) (now : ℕ)
    → s.outcome ≡ retryable_provider
    → str_eq k.model "" ≡ false
    → s.has_retry_after ≡ false
    → s.status_code ≡ 429
    → lookup k (record_signal b k s now).m
      ≡ some (cooled b (current (lookup k b.m)) now (current (lookup k b.m)).backoff_level)
record_rate_limit b k s now h model ra code =
    rw (provider_entry b k s now h model) (unfold provider_failed in rw (ra, code))

record_cred_entry :
    (b : Breaker) (k : Key) (s : Signal) (now : ℕ)
    → s.outcome ≡ retryable_provider
    → str_eq k.model "" ≡ false
    → lookup (cred_entry k) (record_signal b k s now).m ≡ released (lookup (cred_entry k) b.m)
unfolding record_signal record_outcome
record_cred_entry b k s now h model =
    let b1 = release_probe_locked b (cred_entry k) in
    subst
      (λ o.
        lookup (cred_entry k) (record_outcome o b k s now).m ≡ released (lookup (cred_entry k) b.m))
      (sym h)
      (rw (
        lookup-record_provider_failure b1 k (cred_entry k) s now,
        key_eq_comm k (cred_entry k),
        cred_entry-ne k model,
        lookup-release_probe_locked b (cred_entry k) (cred_entry k),
        key_eq_refl (cred_entry k),
      ))

-- A Retry-After shuts the triple for exactly what the provider asked for, up to the maximum: the
-- triple is refused before that, and admitted from then on with no probe to wait for, as far as
-- its credential's entry admits it.
pub retry_after_window :
    (b : Breaker) (k : Key) (s : Signal) (now later : ℕ)
    → s.outcome ≡ retryable_provider
    → str_eq k.model "" ≡ false
    → s.has_retry_after ≡ true
    → (available (record_signal b k s now) k later).1 ≡ (
        admits (released (lookup (cred_entry k) b.m)) later
        && leb (add_duration now (asked b s now)) later)
retry_after_window b k s now later h model ra =
    rw
      (
        available-admits (record_signal b k s now) k later,
        record_cred_entry b k s now h model,
        record_retry_after b k s now h model ra,
      )
      (ap (λ t. admits (released (lookup (cred_entry k) b.m)) later && t)
        (window-admits (waiting b (current (lookup k b.m)) s now) later refl))

-- A 429 without a Retry-After shuts the triple from the first one on, and only the ladder says
-- for how long: it is refused until the cooldown of the entry's level has passed, admitted from
-- then on as far as its credential's entry admits it, and the next trip is one level up.
pub rate_limit_window :
    (b : Breaker) (k : Key) (s : Signal) (now later : ℕ)
    → s.outcome ≡ retryable_provider
    → str_eq k.model "" ≡ false
    → s.has_retry_after ≡ false
    → s.status_code ≡ 429
    → let st = current (lookup k b.m) in
      let wait = cooldown_for st.backoff_level (policy_locked b now).1 in
      ((available (record_signal b k s now) k later).1
        ≡ (admits (released (lookup (cred_entry k) b.m)) later && leb (now + wait) later))
      × (current (lookup k (record_signal b k s now).m)).backoff_level ≡ incr st.backoff_level
rate_limit_window b k s now later h model ra code =
    let st = current (lookup k b.m) in
    (
      rw
          (
            available-admits (record_signal b k s now) k later,
            record_cred_entry b k s now h model,
            record_rate_limit b k s now h model ra code,
          )
          (ap (λ t. admits (released (lookup (cred_entry k) b.m)) later && t)
            (window-admits (cooled b st now st.backoff_level) later refl)),
      rw (record_rate_limit b k s now h model ra code),
    )
