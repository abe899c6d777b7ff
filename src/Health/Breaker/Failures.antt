-- ===== src/Health/Breaker/Failures.antt =====
-- Failures in a row: a single failure must not cool, and the trip_after-th one does.
use darkrouter.Base.{ℕ, ◌≡◌, ◌≢◌, false, List, [], ◌∷◌, All, pos, lookup}
use darkrouter.Adapter.{retryable_provider}
use darkrouter.Health.Types.{Key, key_Eq, Signal, Breaker}
use darkrouter.Health.Breaker.{record_signal, policy_locked}
use darkrouter.Health.Breaker.Trips.{current}

-- A failure that says neither how long to wait nor that a limit was hit.
pub record IsPlain (s : Signal) : Type 0 where
  pub is_provider : s.outcome ≡ retryable_provider
  pub no_retry_after : s.has_retry_after ≡ false
  pub no_rate_limit : s.status_code ≢ 429

-- The breaker after a row of signals about one triple, with their instants.
unfoldable pub record_all : Breaker → Key → List (Signal × ℕ) → Breaker
record_all b k [] = b
record_all b k ((s, now) ∷ rest) = record_all (record_signal b k s now) k rest

-- A triple that has failed `n` times and does not cool.
abbrev Failing : Breaker → Key → ℕ → Type 0
Failing b k n =
    ((current (lookup k b.m)).consecutive_failures ≡ pos n)
    × ((current (lookup k b.m)).cooling_until ≡ 0)

abbrev PlainRow : List (Signal × ℕ) → Type 0
PlainRow row = All (λ p. IsPlain p.0) row

-- The thresholds that the breaker goes by, at any time: those of the policy that it is configured
-- with, within their limits, or without one those that it was made with.
abbrev Thresholds : Breaker → ℕ → ℕ → Type 0
Thresholds b trip_after max = (at : ℕ) → policy_locked b at ≡ (trip_after, max)
