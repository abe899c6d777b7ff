-- ===== src/Health/RetryAfter.antt =====
-- internal/health/retryafter.go. `strconv.Atoi`, `http.ParseTime` and `strings.TrimSpace` are
-- parameters: Go's standard library is not part of the repository.
pub mod Overflow
use darkrouter.Base.{
  ℕ, ◌+◌, ◌-◌, ◌*◌, ◌^◌, ◌%◌, min, ◌≤◌, ◌<◌, ◌≡◌, refl, String, Option, none, some, ℤ, pos, negsuc,
  ltb, str_eq, arith, if◌then◌else◌,
}
use darkrouter.Health.Cooldown.{second}

-- The int64 that a bit pattern below 2 ^ 64 stands for.
unfoldable pub int64_of : ℕ → ℤ
int64_of n = if ltb n (2 ^ 63) then pos n else negsuc (2 ^ 64 - n - 1)

-- time.Duration(secs) * time.Second
unfoldable pub seconds : ℕ → ℤ
unfolding int64_of
seconds secs = int64_of ((secs * second) % 2 ^ 64)

-- t.Sub(now), which saturates. A date that has passed means no wait.
unfoldable pub until_date : ℕ → ℕ → ℤ
until_date t now = pos (min (t - now) (2 ^ 63 - 1))

unfoldable pub of_atoi : ℤ → Option ℤ
unfolding seconds
of_atoi (pos secs) = some (seconds secs)
of_atoi (negsuc _) = none

module _ (trim_space : String → String) (atoi : String → Option ℤ)
    (parse_time : String → Option ℕ) where
  unfoldable pub parse_retry_after : String → ℕ → Option ℤ
  unfolding of_atoi until_date
  parse_retry_after header now =
      let h = trim_space header in
      if str_eq h "" then none else elim (atoi h) [
        | some secs ↦ of_atoi secs
        | none ↦ elim (parse_time h) [ none ↦ none | some t ↦ some (until_date t now) ]
      ]
