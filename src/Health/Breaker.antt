-- ===== src/Health/Breaker.antt =====
-- internal/health/breaker.go: the operations of the breaker, each under its lock. `now` is what
-- `b.now()` returns in the call.
pub mod Entries
pub mod Signals
pub mod Gate
pub mod Probe
pub mod Exclusive
pub mod Trips
pub mod Failures
use darkrouter.Base.{
  ℕ, Bool, true, false, not, ◌&&◌, List, [], ◌∷◌, none, some, map, ℤ, pos, incr, leb_ℤ, ltb_ℤ,
  lookup, insert, erase, ltb, ◌==◌, str_eq, if◌then◌else◌,
}
use darkrouter.Adapter.{
  Outcome, success, retryable_provider, retryable_credential, retryable_model, fatal,
  client_cancelled, other,
}
use darkrouter.Health.Types.{
  Key, key_Eq, cred_entry, Signal, Entry, State, zero_state, Breaker, add_duration,
}
use darkrouter.Health.Cooldown.{cooldown_for, clamp_policy}

unfoldable pub new : ℤ → ℤ → Breaker
new trip_after max =
    let p = clamp_policy trip_after max in
    record { m = []; last_used = []; trip_after = p.0; max = p.1; policy = none; dirty = false }

unfoldable pub configure : Breaker → (ℕ → ℤ × ℤ) → Breaker
configure b source = record b { policy = some source }

unfoldable pub policy_locked : Breaker → ℕ → ℕ × ℕ
policy_locked b now = elim b.policy [
  | none ↦ (b.trip_after, b.max)
  | some source ↦ let p = source now in clamp_policy p.0 p.1
]

-- `availableLocked` once the entry is found: the breaker, `ok` and `claimed`.
unfoldable pub available_entry : Breaker → Key → State → ℕ → Breaker × Bool × Bool
available_entry b k st now =
    if st.cooling_until == 0
    then (b, true, false)
    else if ltb now st.cooling_until
    then (b, false, false)
    else if st.retry_after_only
    then (
      record b {
        m = insert k (record st { cooling_until = 0; retry_after_only = false }) b.m;
        dirty = true;
      },
      true,
      false,
    )
    else if st.probing
    then (b, false, false)
    else (record b { m = insert k (record st { probing = true }) b.m }, true, true)

unfoldable pub available_locked : Breaker → Key → ℕ → Breaker × Bool × Bool
unfolding available_entry
available_locked b k now = elim (lookup k b.m) [
  | none ↦ (b, true, false)
  | some st ↦ available_entry b k st now
]

-- b.m[ck].probing = false. The entry is there: the claim was made on it.
unfoldable pub unclaim : Breaker → Key → Breaker
unclaim b ck = elim (lookup ck b.m) [
  | none ↦ b
  | some st ↦ record b { m = insert ck (record st { probing = false }) b.m }
]

unfoldable pub available_model : Breaker → Key → ℕ → Breaker × Bool
available_model b k now =
    let (b1, ok, claimed) = available_locked b (cred_entry k) now in
    let (b2, ok2, _) = available_locked b1 k now in
    if not ok
    then (b1, false)
    else if not ok2
    then (if claimed then unclaim b2 (cred_entry k) else b2, false)
    else (b2, true)

unfoldable pub available : Breaker → Key → ℕ → Breaker × Bool
available b k now =
    let (b1, ok, _) = available_locked b k now in
    if str_eq k.model "" then (b1, ok) else available_model b k now

unfoldable pub release_probe_locked : Breaker → Key → Breaker
release_probe_locked b k = elim (lookup k b.m) [
  | none ↦ b
  | some st ↦
      if st.probing
      then record b { m = insert k (record st { probing = false }) b.m; dirty = true }
      else b
]

unfoldable pub release_probe : Breaker → Key → Breaker
release_probe b k = release_probe_locked (release_probe_locked b k) (cred_entry k)

unfoldable pub reset_locked : Breaker → Key → Breaker
reset_locked b k = elim (lookup k b.m) [
  | none ↦ b
  | some _ ↦ record b { m = erase k b.m; dirty = true }
]

-- What `getLocked` returns. Both of its callers write the entry, so storing the fresh one is
-- part of their write.
unfoldable pub get_locked : Breaker → Key → State
get_locked b k = elim (lookup k b.m) [ none ↦ zero_state | some st ↦ st ]

-- Writes `st`, the entry of `k`, cooled at `level`.
unfoldable pub cool_locked : Breaker → Key → State → ℕ → ℤ → Breaker
cool_locked b k st now level =
    let cooled = record st {
      cooling_until = add_duration now (pos (cooldown_for level (policy_locked b now).1));
      backoff_level = incr level;
      retry_after_only = false;
      probing = false;
    } in
    record b { m = insert k cooled b.m; dirty = true }

-- The case `OutcomeRetryableProvider`, after the credential's probe is released.
unfoldable pub record_provider_failure : Breaker → Key → Signal → ℕ → Breaker
unfolding get_locked cool_locked
record_provider_failure b k s now =
    let st = get_locked b k in
    let (trip_after, max) = policy_locked b now in
    let d = if ltb_ℤ (pos max) s.retry_after then pos max else s.retry_after in
    let waiting = record st {
      cooling_until = add_duration now d;
      retry_after_only = true;
      probing = false;
    } in
    let failed = record st {
      consecutive_failures = incr st.consecutive_failures;
      probing = false;
    } in
    if s.has_retry_after
    then record b { m = insert k waiting b.m; dirty = true }
    else if s.status_code == 429
    then cool_locked b k st now st.backoff_level
    else if leb_ℤ (pos trip_after) failed.consecutive_failures
    then cool_locked b k failed now failed.backoff_level
    else record b { m = insert k failed b.m; dirty = true }

unfoldable pub record_outcome : Outcome → Breaker → Key → Signal → ℕ → Breaker
record_outcome client_cancelled b k s now = release_probe b k
record_outcome retryable_model b k s now = release_probe b k
record_outcome success b k s now = reset_locked (reset_locked b k) (cred_entry k)
record_outcome fatal b k s now = release_probe_locked (reset_locked b k) (cred_entry k)
record_outcome retryable_credential b k s now =
    let b1 = release_probe_locked b k in
    let st = get_locked b1 (cred_entry k) in cool_locked b1 (cred_entry k) st now st.backoff_level
record_outcome retryable_provider b k s now =
    record_provider_failure (release_probe_locked b (cred_entry k)) k s now
record_outcome (other _) b k s now = b

-- `Record`.
unfoldable pub record_signal : Breaker → Key → Signal → ℕ → Breaker
record_signal b k s now = record_outcome s.outcome b k s now

unfoldable pub entry_of : Key × State → Entry
entry_of (k, st) = record {
  key = k;
  cooling_until = st.cooling_until;
  backoff_level = st.backoff_level;
  consecutive_failures = st.consecutive_failures;
}

unfoldable pub snapshot : Breaker → List Entry
snapshot b = map entry_of b.m

-- The state that `Rehydrate` makes of one stored entry.
unfoldable pub rehydrated : Entry → ℕ → State
rehydrated e now = record zero_state {
  backoff_level = e.backoff_level;
  consecutive_failures = e.consecutive_failures;
  cooling_until =
      if not (e.cooling_until == 0) && ltb now e.cooling_until then e.cooling_until else 0;
}

unfoldable pub rehydrate : Breaker → List Entry → ℕ → Breaker
unfolding rehydrated
rehydrate b [] now = b
rehydrate b (e ∷ es) now = rehydrate (record b { m = insert e.key (rehydrated e now) b.m }) es now

unfoldable pub take_dirty : Breaker → Breaker × Bool
take_dirty b = (record b { dirty = false }, b.dirty)
