-- ===== src/Exec/Budget.antt =====
-- internal/exec/deadline.go: what remains of policy.timeout.total. Instants and durations are
-- nanoseconds; the configured durations are not negative.
use darkrouter.Base.{ℕ, ◌+◌, ◌-◌, ◌≤◌, ◌<◌, Bool, true, ltb, leb, ◌≡◌, arith, if◌then◌else◌}

pub record Timeouts : Type 0 where
  pub connect : ℕ
  pub first_byte : ℕ
  pub total : ℕ

pub record Budget : Type 0 where
  pub deadline : ℕ
  pub per_try : ℕ

unfoldable pub new_budget : Timeouts → ℕ → Budget
new_budget t start = record { deadline = start + t.total; per_try = t.connect + t.first_byte }

unfoldable pub remaining : Budget → ℕ → ℕ
remaining b now = if ltb b.deadline now then 0 else b.deadline - now

unfoldable pub can_start_attempt : Budget → ℕ → Bool
can_start_attempt b now = leb b.per_try (remaining b now)

unfoldable pub attempt_deadline : Budget → ℕ → ℕ
attempt_deadline b now =
    let by_try = now + b.per_try in if ltb b.deadline by_try then b.deadline else by_try

-- When the gate lets an attempt of positive length start, the attempt has its whole time: its
-- deadline is `per_try` after now, and the request's deadline is not before it.
pub gate_gives_whole_attempt :
    (t : Timeouts) (start now : ℕ)
    → can_start_attempt (new_budget t start) now ≡ true
    → 0 < t.connect + t.first_byte
    → (attempt_deadline (new_budget t start) now ≡ now + (t.connect + t.first_byte))
      × (now + (t.connect + t.first_byte) ≤ start + t.total)
unfolding new_budget attempt_deadline can_start_attempt remaining
gate_gives_whole_attempt t start now h p = ground arith
