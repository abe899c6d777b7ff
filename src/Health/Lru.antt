-- ===== src/Health/Lru.antt =====
-- internal/health/lru.go: when each credential was last dispatched to.
use darkrouter.Base.{true, ℕ, [], ◌∷◌, Map, insert}
use darkrouter.Health.Types.{CredKey, cred_key_Eq, Breaker}

unfoldable pub mark_used : Breaker → CredKey → ℕ → Breaker
mark_used b ck at = record b { last_used = insert ck at b.last_used; dirty = true }

-- The loops over `b.lastUsed` and over `m` write one entry at a time into a map.
unfoldable pub copy_into : Map CredKey ℕ → Map CredKey ℕ → Map CredKey ℕ
copy_into out [] = out
copy_into out ((k, v) ∷ m) = copy_into (insert k v out) m

unfoldable pub last_used_snapshot : Breaker → Map CredKey ℕ
last_used_snapshot b = copy_into [] b.last_used

unfoldable pub rehydrate_last_used : Breaker → Map CredKey ℕ → Breaker
rehydrate_last_used b m = record b { last_used = copy_into b.last_used m }
