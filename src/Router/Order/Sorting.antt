-- ===== src/Router/Order/Sorting.antt =====
-- internal/router/order.go: the test on credentials is a total preorder, and the sort sorts by it.
use darkrouter.Base.{
  ℕ, ◌<◌, ◌≡◌, refl, String, true, false, List, [], ◌∷◌, All, Option, none, some, Map, str_lt,
  str_lt-asymm, str_lt_trans, str_lt-total, Bool-cases, arith,
}
use darkrouter.Health.Types.{CredKey}
use darkrouter.Provider.{Credential}
use darkrouter.Router.Order.{used_at, less, credential_less}

str_le_trans : (i j k : String) → str_lt j i ≡ false → str_lt k j ≡ false → str_lt k i ≡ false
str_le_trans i j k h g = ground (
  arith,
  str_lt-total i j,
  str_lt_trans k i j,
  str_lt_trans i j k,
  Bool-cases (str_lt k i),
  Bool-cases (str_lt i j),
)

pub less-asymm : (s t : Option ℕ) (i j : String) → less s t i j ≡ true → less t s j i ≡ false
unfolding less
less-asymm none none i j h = str_lt-asymm i j h
less-asymm none (some t) i j h = refl
less-asymm (some s) none i j h = cc
less-asymm (some s) (some t) i j h = ground (arith, str_lt-asymm i j)

less_le_trans :
    (r s t : Option ℕ) (i j k : String)
    → less s r j i ≡ false
    → less t s k j ≡ false
    → less t r k i ≡ false
unfolding less
less_le_trans none none none i j k h g = str_le_trans i j k h g
less_le_trans none none (some t) i j k h g = refl
less_le_trans none (some s) none i j k h g = cc
less_le_trans none (some s) (some t) i j k h g = refl
less_le_trans (some r) none none i j k h g = cc
less_le_trans (some r) none (some t) i j k h g = cc
less_le_trans (some r) (some s) none i j k h g = cc
less_le_trans (some r) (some s) (some t) i j k h g = ground (arith, str_le_trans i j k)

module _ (provider_id : String) (last_used : Map CredKey ℕ) where
  pub credential_asymm :
      (a b : Credential)
      → credential_less provider_id last_used a b ≡ true
      → credential_less provider_id last_used b a ≡ false
  unfolding credential_less
  credential_asymm a b =
      less-asymm (used_at provider_id last_used a) (used_at provider_id last_used b) a.id b.id

  pub credential_le_trans :
      (a b c : Credential)
      → credential_less provider_id last_used b a ≡ false
      → credential_less provider_id last_used c b ≡ false
      → credential_less provider_id last_used c a ≡ false
  unfolding credential_less
  credential_le_trans a b c =
      less_le_trans (used_at provider_id last_used a) (used_at provider_id last_used b)
        (used_at provider_id last_used c) a.id b.id c.id

-- A credential that must be tried before another, by when the two were last used and their ids:
-- never used before used, the least recently used before the others, and otherwise by id.
pub data Precedes : Option ℕ → String → Option ℕ → String → Type 0 where
  unused : {t : ℕ} {i j : String} → Precedes none i (some t) j
  unused_both : {i j : String} → str_lt i j ≡ true → Precedes none i none j
  older : {s t : ℕ} {i j : String} → s < t → Precedes (some s) i (some t) j
  same_time : {t : ℕ} {i j : String} → str_lt i j ≡ true → Precedes (some t) i (some t) j

-- No credential has one behind it that precedes it.
abbrev pub InOrder : (Credential → Option ℕ) → List Credential → Type 0
InOrder used [] = Unit {0}
InOrder used (a ∷ cs) = All (λ b. ¬ Precedes (used b) b.id (used a) a.id) cs × InOrder used cs
