-- ===== src/Catalog/Pricing.antt =====
-- internal/catalog/pricing.go, and `Pricing.Grade` of internal/catalog/catalog.go: how one rate is
-- applied to a token count, what a request costs, and how far the cost may be trusted. Token counts
-- are not negative.
pub mod Rounding
pub mod Trust
pub mod Total
use darkrouter.Base.{
  ℕ, ◌+◌, ◌-◌, ◌*◌, ◌/◌, ◌%◌, ◌^◌, Bool, true, false, ◌&&◌, ◌||◌, Option, none, some, ℤ, pos,
  negsuc, ltb, leb, ◌==◌, if◌then◌else◌,
}
use darkrouter.Catalog.Types.{Pricing}
use darkrouter.Catalog.{Source, Grade, grade, measured, declared, indexed, guessed}

pub record Tokens : Type 0 where
  pub input : ℕ
  pub output : ℕ
  pub cache_read : ℕ
  pub cache_write : ℕ
  pub cache_write_5m : ℕ
  pub cache_write_1h : ℕ

unfoldable pub grade_rank : Grade → ℕ
grade_rank measured = 3
grade_rank declared = 2
grade_rank indexed = 1
grade_rank guessed = 0

unfoldable pub weaker : Grade → Grade → Grade
weaker a b = if ltb (grade_rank b) (grade_rank a) then b else a

unfoldable pub is_measured : Grade → Bool
is_measured measured = true
is_measured _ = false

-- `Pricing.Grade`.
unfoldable pub price_grade : Pricing → Grade
unfolding is_measured
price_grade p = let g = grade p.source in if p.resold && is_measured g then indexed else g

-- A filled rate's grade lowers the price's, where the rate is used.
unfoldable pub lowered : Bool → Option Source → Grade → Grade
unfolding weaker
lowered used none g = g
lowered used (some s) g = if used then weaker g (grade s) else g

unfoldable pub grade_for : Pricing → Tokens → Grade
unfolding lowered price_grade
grade_for p t =
    let read = lowered (ltb 0 t.cache_read) p.cache_read_source (price_grade p) in
    lowered (ltb (t.cache_write_5m + t.cache_write_1h) t.cache_write) p.cache_write_source read

-- The int64 of a bit pattern, divided with the quotient cut off towards zero.
unfoldable pub int64_quot : ℕ → ℕ → ℤ
int64_quot n d =
    if ltb n (2 ^ 63)
    then pos (n / d)
    else (if (2 ^ 64 - n) / d == 0 then pos 0 else negsuc ((2 ^ 64 - n) / d - 1))

abbrev pub per_m : ℕ
per_m = 1000000

unfoldable pub rate_micros : ℤ → ℤ → ℤ
unfolding int64_quot
rate_micros (pos per_mtok) (pos tokens) =
    if tokens == 0 || per_mtok == 0
    then pos 0
    else int64_quot ((per_mtok * tokens + 500000) % 2 ^ 64) per_m
rate_micros _ _ = pos 0

-- The bit pattern of an int64.
unfoldable pub bits : ℤ → ℕ
bits (pos n) = n % 2 ^ 64
bits (negsuc n) = 2 ^ 64 - 1 - n % 2 ^ 64

-- The int64 of a bit pattern.
unfoldable pub int64_of : ℕ → ℤ
int64_of n = if ltb n (2 ^ 63) then pos n else negsuc (2 ^ 64 - 1 - n)

-- a + b in int64
unfoldable pub add_int64 : ℤ → ℤ → ℤ
unfolding bits int64_of
add_int64 a b = int64_of ((bits a + bits b) % 2 ^ 64)

-- rate * perMille / 1000, for the writes whose lifetime is known.
unfoldable pub write_rate : ℕ → ℤ → ℤ
unfolding bits int64_quot
write_rate per_mille rate = int64_quot ((bits rate * per_mille) % 2 ^ 64) 1000

-- The writes whose lifetime is not known; a charge for less than one token is nothing.
unfoldable pub plain_writes : Tokens → ℕ
plain_writes t = t.cache_write - (t.cache_write_5m + t.cache_write_1h)

unfoldable pub total_cost : Pricing → Tokens → ℤ
unfolding rate_micros add_int64 write_rate plain_writes
total_cost p t =
    let plain = rate_micros p.cache_write_rate (pos (plain_writes t)) in
    let short = rate_micros (write_rate 1250 p.input_rate) (pos t.cache_write_5m) in
    let long = rate_micros (write_rate 2000 p.input_rate) (pos t.cache_write_1h) in
    let sum =
      add_int64 (rate_micros p.input_rate (pos t.input))
        (rate_micros p.output_rate (pos t.output)) in
    let read = add_int64 sum (rate_micros p.cache_read_rate (pos t.cache_read)) in
    add_int64 (add_int64 (add_int64 read plain) short) long

-- `none` is nil: the model has no price.
unfoldable pub cost : Pricing → Tokens → Option ℤ
unfolding total_cost
cost p t = if p.known then some (total_cost p t) else none

unfoldable pub classic_tokens : ℕ → ℕ → ℕ → ℕ → Tokens
classic_tokens input output cache_read cache_write = record {
  input = input;
  output = output;
  cache_read = cache_read;
  cache_write = cache_write;
  cache_write_5m = 0;
  cache_write_1h = 0;
}

unfoldable pub cost_micros : Pricing → ℕ → ℕ → ℕ → ℕ → Option ℤ
unfolding cost classic_tokens
cost_micros p input output cache_read cache_write =
    cost p (classic_tokens input output cache_read cache_write)
