-- ===== src/Router/Order.antt =====
-- internal/router/order.go.
pub mod Sorting
pub mod Reproducible
use darkrouter.Base.{
  ℕ, String, Bool, true, false, List, [], ◌∷◌, Option, none, some, Map, lookup, ltb, ◌==◌, str_lt,
  stable_sort, if◌then◌else◌,
}
use darkrouter.Health.Types.{CredKey, cred_key_Eq}
use darkrouter.Provider.{Credential}

unfoldable pub used_at : String → Map CredKey ℕ → Credential → Option ℕ
used_at provider_id last_used c =
    lookup (record { provider_id = provider_id; key_id = c.id }) last_used

-- The test that `SliceStable` is given: never used before used, then the older, then the id.
unfoldable pub less : Option ℕ → Option ℕ → String → String → Bool
less none none i j = str_lt i j
less none (some _) i j = true
less (some _) none i j = false
less (some ti) (some tj) i j = if ti == tj then str_lt i j else ltb ti tj

unfoldable pub credential_less : String → Map CredKey ℕ → Credential → Credential → Bool
unfolding less used_at
credential_less provider_id last_used a b =
    less (used_at provider_id last_used a) (used_at provider_id last_used b) a.id b.id

unfoldable pub order_credentials : String → List Credential → Map CredKey ℕ → List Credential
unfolding stable_sort credential_less
order_credentials provider_id creds last_used =
    stable_sort (credential_less provider_id last_used) creds
