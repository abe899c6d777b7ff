-- ===== src/Catalog/Pricing/Rounding.antt =====
-- What a rate charges for a token count.
use darkrouter.Base.{
  ℕ, ◌+◌, ◌*◌, ◌/◌, ◌%◌, ◌^◌, ◌≤◌, ◌<◌, pos, ◌==◌, ◌≡◌, ap, ◌∙◌, ==_iff, arith, Bool-cases, inl,
  inr,
}
use darkrouter.Catalog.Pricing.{rate_micros, int64_quot, per_m}

small_quot : (x : ℕ) → x < 2 ^ 63 → int64_quot (x % 2 ^ 64) per_m ≡ pos (x / per_m)
unfolding int64_quot
small_quot x h = let e : x % 2 ^ 64 ≡ x = omega (arith, h) in rw (e) (ground (arith, h))

no_charge : (x : ℕ) → x ≡ 0 → (x + 500000) / per_m ≡ 0
no_charge x h = omega (arith, h)

pub charge :
    (r t : ℕ)
    → r * t + 500000 < 2 ^ 63
    → rate_micros (pos r) (pos t) ≡ pos ((r * t + 500000) / per_m)
unfolding rate_micros
charge r t h = elim (Bool-cases (t == 0)) [
  | inl e ↦
      let z : r * t ≡ 0 = ap (λ x. r * x) ((==_iff t 0).0 e) ∙ omega arith in
      ground (arith, e, no_charge (r * t) z)
  | inr e ↦ elim (Bool-cases (r == 0)) [
    | inl f ↦
        let z : r * t ≡ 0 = ap (λ x. x * t) ((==_iff r 0).0 f) ∙ omega arith in
        ground (arith, e, f, no_charge (r * t) z)
    | inr f ↦ rw (e, f) (small_quot (r * t + 500000) h)
  ]
]

-- While the product stays below 2 ^ 63, the charge is the exact price rounded half up: within
-- half a micro-dollar of it, the upper half included.
pub rate_micros_rounds :
    (per_mtok tokens : ℕ)
    → per_mtok * tokens + 500000 < 2 ^ 63
    → (cost : ℕ) × (rate_micros (pos per_mtok) (pos tokens) ≡ pos cost)
      × (per_m * cost ≤ per_mtok * tokens + 500000)
      × (per_mtok * tokens + 500000 < per_m * cost + per_m)
rate_micros_rounds per_mtok tokens h =
    let x = per_mtok * tokens + 500000 in
    (x / per_m, charge per_mtok tokens h, omega arith, omega arith)
