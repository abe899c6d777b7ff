-- ===== src/Catalog/Pricing/Total.antt =====
-- What a request costs in all, where nothing wraps.
use darkrouter.Base.{ℕ, ◌+◌, ◌*◌, ◌/◌}
use darkrouter.Catalog.Types.{Pricing}
use darkrouter.Catalog.Pricing.{Tokens, per_m, plain_writes}

-- The charge for a count at a rate.
abbrev pub charged : ℕ → ℕ → ℕ
charged rate tokens = (rate * tokens + 500000) / per_m

-- The price in millionths of a micro-dollar before rounding, at the four rates.
abbrev pub exact : ℕ → ℕ → ℕ → ℕ → Tokens → ℕ
exact i o r w t =
    i * t.input
    + o * t.output
    + r * t.cache_read
    + w * plain_writes t
    + i * 1250 / 1000 * t.cache_write_5m
    + i * 2000 / 1000 * t.cache_write_1h

abbrev charges : ℕ → ℕ → ℕ → ℕ → Tokens → ℕ
charges i o r w t =
    charged i t.input
    + charged o t.output
    + charged r t.cache_read
    + charged w (plain_writes t)
    + charged (i * 1250 / 1000) t.cache_write_5m
    + charged (i * 2000 / 1000) t.cache_write_1h
