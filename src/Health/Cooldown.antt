-- ===== src/Health/Cooldown.antt =====
-- internal/health/breaker.go: the escalation ladder and the thresholds.
pub mod Bounds
use darkrouter.Base.{
  ℕ, zero, suc, ◌+◌, ◌-◌, ◌*◌, ◌/◌, ◌%◌, ◌^◌, List, [], ◌∷◌, none, some, ℤ, pos, negsuc, ltb, leb,
  length, get_elem?, if◌then◌else◌,
}

abbrev pub second : ℕ
second = 1_000_000_000

abbrev pub minute : ℕ
minute = 60 * second

abbrev pub ladder : List ℕ
ladder =
    (1 * second)
    ∷ (2 * second)
    ∷ (4 * second)
    ∷ (8 * second)
    ∷ (15 * second)
    ∷ (30 * second)
    ∷ (60 * second)
    ∷ (120 * second)
    ∷ []

abbrev pub last_rung : ℕ
last_rung = 120 * second

-- The bits of an int64 product. Below 2 ^ 63 they are the product.
abbrev pub i64 : ℕ → ℕ
i64 n = n % 2 ^ 64

-- The loop of `cooldownFor` for `rounds` more rounds, with the clamp below it.
unfoldable pub escalate : ℕ → ℕ → ℕ → ℕ
escalate zero d max = if ltb max d then max else d
escalate (suc rounds) d max =
    let rest = escalate rounds (i64 (d * 2)) max in if leb (max / 2) d then max else rest

unfoldable pub cooldown_from : ℕ → ℕ → ℕ
unfolding escalate
cooldown_from level max = elim (get_elem? ladder level) [
  | some d ↦ if ltb d max then d else max
  | none ↦ escalate (level + 1 - length ladder) last_rung max
]

unfoldable pub cooldown_for : ℤ → ℕ → ℕ
unfolding cooldown_from
cooldown_for (pos level) max = cooldown_from level max
cooldown_for (negsuc n) max = cooldown_from 0 max

unfoldable pub clamp_trip : ℤ → ℕ
clamp_trip (pos n) = if ltb n 1 then 1 else n
clamp_trip (negsuc n) = 1

unfoldable pub clamp_max : ℤ → ℕ
clamp_max (pos zero) = 15 * minute
clamp_max (pos (suc n)) = suc n
clamp_max (negsuc n) = 15 * minute

-- Thresholds below 1 and maxima that are not positive fall back to 1 and 15 minutes.
unfoldable pub clamp_policy : ℤ → ℤ → ℕ × ℕ
unfolding clamp_trip clamp_max
clamp_policy trip_after max = (clamp_trip trip_after, clamp_max max)
