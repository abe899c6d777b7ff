-- ===== src/Health/Cooldown/Bounds.antt =====
-- `cooldownFor` of internal/health/breaker.go against a closed form of the ladder.
use native.Mathlib.Nat.{pow-suc}
use darkrouter.Base.{
  false, ℕ, zero, suc, ◌+◌, ◌-◌, ◌*◌, ◌/◌, ◌^◌, ◌≤◌, ◌<◌, ◌≡◌, inl, inr, none, some, min, arith,
  get_elem?, length, leb→le, Bool-cases, leb, pos, Option-cases,
}
use darkrouter.Health.Cooldown.{ladder, last_rung, escalate, cooldown_from, cooldown_for, i64}

pow-pos : (n : ℕ) → 1 ≤ 2 ^ n
pow-pos zero = omega arith
pow-pos (suc n) = rw (pow-suc 2 n) (omega (arith, pow-pos n))

pow-double : (d n : ℕ) → d * 2 * 2 ^ n ≡ d * 2 ^ suc n
pow-double d n = rw (pow-suc 2 n) (omega arith)

two-le-pow : (n : ℕ) → 2 ≤ 2 ^ suc n
two-le-pow n = rw (pow-suc 2 n) (omega (arith, pow-pos n))

abbrev Near : ℕ → ℕ → ℕ → Type 0
Near rung max c = (min rung max ≤ c) × (c ≤ min (rung + 1) max)

clamped-Near : (d p max : ℕ) → 2 ≤ p → max / 2 ≤ d → Near (d * p) max max
clamped-Near d p max h c = (omega arith, (let m : d * 2 ≤ d * p = grind arith in omega (arith, m)))

no_wrap : (d max : ℕ) → max < 2 ^ 63 → leb (max / 2) d ≡ false → i64 (d * 2) ≡ d * 2
no_wrap d max h below = ground arith

escalate-Near :
    (rounds d max : ℕ) → max < 2 ^ 63 → Near (d * 2 ^ rounds) max (escalate rounds d max)
unfolding escalate
escalate-Near zero d max h = ground arith
escalate-Near (suc rounds) d max h = elim (Bool-cases (leb (max / 2) d)) [
  | inl clamped ↦
      rw clamped (clamped-Near d (2 ^ suc rounds) max (two-le-pow rounds) (leb→le _ _ clamped))
  | inr below ↦
      rw (below, no_wrap d max h below, ← pow-double d rounds) (escalate-Near rounds (d * 2) max h)
]

-- The rungs of the ladder, and past them the last one doubled for each level.
abbrev pub rung : ℕ → ℕ
rung level = elim (get_elem? ladder level) [
  | some d ↦ d
  | none ↦ last_rung * 2 ^ (level + 1 - length ladder)
]

cooldown_from-Near :
    (level max : ℕ) → max < 2 ^ 63 → Near (rung level) max (cooldown_from level max)
unfolding cooldown_from
cooldown_from-Near level max h = elim (Option-cases (get_elem? ladder level)) [
  | inl e ↦ rw (e, cooldown_from, rung) (escalate-Near (level + 1 - 8) last_rung max h)
  | inr (d, e) ↦ rw (e, cooldown_from, rung) (ground arith)
]

-- Past the ladder each rung doubles.
doubled-lt : (m k n : ℕ) → m ≡ suc n → k ≡ suc (suc n) → last_rung * 2 ^ m + 1 ≤ last_rung * 2 ^ k
doubled-lt m k n e f = rw (e, f, pow-suc 2 (suc n)) (omega (arith, pow-pos (suc n)))

rung-lt : (level : ℕ) → rung level + 1 ≤ rung (suc level)
rung-lt zero = omega arith
rung-lt (suc zero) = omega arith
rung-lt (suc (suc zero)) = omega arith
rung-lt (suc (suc (suc zero))) = omega arith
rung-lt (suc (suc (suc (suc zero)))) = omega arith
rung-lt (suc (suc (suc (suc (suc zero))))) = omega arith
rung-lt (suc (suc (suc (suc (suc (suc zero)))))) = omega arith
rung-lt (suc (suc (suc (suc (suc (suc (suc zero))))))) = omega arith
rung-lt (suc (suc (suc (suc (suc (suc (suc (suc n)))))))) =
    doubled-lt _ _ n (omega arith) (omega arith)

-- The cooldown of a level is the level's rung, clamped at the maximum: exactly, but for the
-- nanosecond that the test before the doubling may round up by. No product wraps on the way.
pub cooldown_closed_form :
    (level max : ℕ)
    → max < 2 ^ 63
    → (min (rung level) max ≤ cooldown_for (pos level) max)
      × (cooldown_for (pos level) max ≤ min (rung level + 1) max)
unfolding cooldown_for
cooldown_closed_form level max h = cooldown_from-Near level max h

-- The cooldown never exceeds the maximum, and a further trip never shortens it.
pub cooldown_mono :
    (level max : ℕ)
    → max < 2 ^ 63
    → (cooldown_for (pos level) max ≤ cooldown_for (pos (suc level)) max)
      × (cooldown_for (pos (suc level)) max ≤ max)
cooldown_mono level max h =
    let (lower, _) = cooldown_closed_form (suc level) max h in
    omega (
      arith,
      cooldown_closed_form level max h,
      cooldown_closed_form (suc level) max h,
      rung-lt level,
    )
