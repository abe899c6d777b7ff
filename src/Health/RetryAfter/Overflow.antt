-- ===== src/Health/RetryAfter/Overflow.antt =====
-- A Retry-After of more seconds than a `time.Duration` can hold.
use darkrouter.Base.{
  ℕ, ◌-◌, ◌*◌, ◌%◌, ◌^◌, ◌≤◌, ◌≡◌, refl, String, Option, some, ℤ, pos, negsuc, str_eq, arith, false,
  true, Bool, leb, ◌&&◌, lookup, ◌∙◌,
}
use darkrouter.Adapter.{retryable_provider}
use darkrouter.Health.Types.{Key, key_Eq, Signal, Breaker, cred_entry, add_duration}
use darkrouter.Health.Cooldown.{second}
use darkrouter.Health.Breaker.{record_signal, available}
use darkrouter.Health.Breaker.Entries.{released}
use darkrouter.Health.Breaker.Gate.{admits}
use darkrouter.Health.Breaker.Trips.{retry_after_window, asked}
use darkrouter.Health.RetryAfter.{parse_retry_after, seconds}

seconds_negative :
    (secs : ℕ) → 2 ^ 63 ≤ (secs * second) % 2 ^ 64 → (n : ℕ) × (seconds secs ≡ negsuc n)
unfolding seconds
seconds_negative secs lo = (2 ^ 64 - (secs * second) % 2 ^ 64 - 1, ground arith)

-- Where the low 64 bits of a header's seconds in nanoseconds are 2 ^ 63 or more, the header is read as
-- a negative duration, and the breaker cools the provider's triple not at all: at the instant of the
-- failure it is available again, as far as its credential's entry admits it.
pub overflow_not_cooled :
    (trim_space : String → String) (atoi : String → Option ℤ) (parse_time : String → Option ℕ)
    (header : String) (secs : ℕ) (b : Breaker) (k : Key) (s : Signal) (now : ℕ)
    → str_eq (trim_space header) "" ≡ false
    → atoi (trim_space header) ≡ some (pos secs)
    → 2 ^ 63 ≤ (secs * second) % 2 ^ 64
    → s.outcome ≡ retryable_provider
    → s.has_retry_after ≡ true
    → parse_retry_after trim_space atoi parse_time header now ≡ some s.retry_after
    → str_eq k.model "" ≡ false
    → (available (record_signal b k s now) k now).1
      ≡ admits (released (lookup (cred_entry k) b.m)) now
unfolding parse_retry_after
overflow_not_cooled trim_space atoi parse_time header secs b k s now full read lo o ra parsed
      model =
    let (n, negative) = seconds_negative secs lo in
    let wait : s.retry_after ≡ negsuc n = ground (arith, negative) in
    let past : leb (add_duration now (asked b s now)) now ≡ true = simp wait (ground arith) in
    retry_after_window b k s now now o model ra
    ∙ rw past (and_true (admits (released (lookup (cred_entry k) b.m)) now))
  where
    and_true : (t : Bool) → (t && true) ≡ t
    and_true true = refl
    and_true false = refl
