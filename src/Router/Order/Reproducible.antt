-- ===== src/Router/Order/Reproducible.antt =====
-- internal/router/order.go: the order does not depend on the order of the credentials given.
use mathlib.Core.List.{Permᴰ}
use darkrouter.Base.{
  stable_sort_perm, Apart, ℕ, ◌≡◌, ◌≢◌, refl, ◌⊎◌, inl, inr, String, Bool, true, List, [], ◌∷◌, All,
  Option, none, some, Map, str_lt, str_lt-total, arith,
}
use darkrouter.Health.Types.{CredKey}
use darkrouter.Provider.{Credential}
use darkrouter.Router.Order.{used_at, less, credential_less, order_credentials}
use darkrouter.Router.Order.Sorting.{credential_asymm, credential_le_trans}

differ : (i j : String) → i ≢ j → (str_lt i j ≡ true) ⊎ (str_lt j i ≡ true)
differ i j h = ground (arith, str_lt-total i j)

-- Two credentials with different ids are told apart.
less-Told : (s t : Option ℕ) (i j : String) → i ≢ j → (less s t i j ≡ true) ⊎ (less t s j i ≡ true)
unfolding less
less-Told none none i j h = differ i j h
less-Told none (some t) i j h = inl refl
less-Told (some s) none i j h = inr refl
less-Told (some s) (some t) i j h = ground (arith, differ i j h)

-- No two credentials of the list share an id.
abbrev pub DistinctIds : List Credential → Type 0
DistinctIds [] = Unit {0}
DistinctIds (c ∷ cs) = All (λ d. c.id ≢ d.id) cs × DistinctIds cs

module _ (provider_id : String) (last_used : Map CredKey ℕ) where
  abbrev lt : Credential → Credential → Bool
  lt = credential_less provider_id last_used

  All-told :
      (c : Credential) (cs : List Credential)
      → All (λ d. c.id ≢ d.id) cs
      → All (λ d. (lt c d ≡ true) ⊎ (lt d c ≡ true)) cs
  unfolding credential_less
  All-told c [] h = tt
  All-told c (d ∷ cs) h = (
    less-Told (used_at provider_id last_used c) (used_at provider_id last_used d) c.id d.id h.0,
    All-told c cs h.1,
  )

  DistinctIds-Apart :
      (cs : List Credential)
      → DistinctIds cs
      → Apart lt
          (credential_asymm provider_id last_used)
          (credential_le_trans provider_id last_used)
          cs
  DistinctIds-Apart [] h = tt
  DistinctIds-Apart (c ∷ cs) h = (All-told c cs h.0, DistinctIds-Apart cs h.1)

-- The order of the candidates is reproducible from the snapshot: whatever order the provider's
-- credentials come in, they are tried in the same one.
pub order_credentials_reproducible :
    (provider_id : String) (last_used : Map CredKey ℕ) {xs ys : List Credential}
    → Permᴰ xs ys
    → DistinctIds xs
    → order_credentials provider_id xs last_used ≡ order_credentials provider_id ys last_used
unfolding order_credentials
order_credentials_reproducible provider_id last_used {xs} p d =
    stable_sort_perm (credential_less provider_id last_used)
      (credential_asymm provider_id last_used) (credential_le_trans provider_id last_used) p
      (DistinctIds-Apart provider_id last_used xs d)
