-- ===== src/Health/Types.antt =====
-- The data of internal/health/breaker.go and internal/health/lru.go. An instant is the number of
-- nanoseconds since Go's zero `time.Time`, so `IsZero` is a test for 0; a duration that the code
-- may be handed as negative is an integer.
use darkrouter.Base.{
  refl, true, false, ℕ, ◌+◌, ◌-◌, String, ◌≡◌, ◌↔◌, Bool, ◌&&◌, Option, ℤ, pos, negsuc, Map, Eq,
  arith, str_eq, str_eq_iff,
}
use darkrouter.Adapter.{Outcome}

pub record Key : Type 0 where
  pub provider_id : String
  pub key_id : String
  pub model : String

pub record CredKey : Type 0 where
  pub provider_id : String
  pub key_id : String

-- The credential-level entry of a key: the one with an empty model.
abbrev pub cred_entry : Key → Key
cred_entry k = record { provider_id = k.provider_id; key_id = k.key_id; model = "" }

unfoldable pub key_eq : Key → Key → Bool
key_eq a b =
    str_eq a.provider_id b.provider_id && str_eq a.key_id b.key_id && str_eq a.model b.model

pub key_eq_iff : (a b : Key) → (key_eq a b ≡ true) ↔ (a ≡ b)
unfolding key_eq
key_eq_iff a b = ground (
  arith,
  str_eq_iff a.provider_id b.provider_id,
  str_eq_iff a.key_id b.key_id,
  str_eq_iff a.model b.model,
)

pub key_eq_comm : (a c : Key) → key_eq a c ≡ key_eq c a
key_eq_comm a c = ground (arith, key_eq_iff a c, key_eq_iff c a)

pub key_eq_refl : (a : Key) → key_eq a a ≡ true
key_eq_refl a = (key_eq_iff a a).1 refl

instance abbrev pub key_Eq : Eq Key
key_Eq = record { beq = key_eq; beq_iff = key_eq_iff }

unfoldable pub cred_key_eq : CredKey → CredKey → Bool
cred_key_eq a b = str_eq a.provider_id b.provider_id && str_eq a.key_id b.key_id

pub cred_key_eq_iff : (a b : CredKey) → (cred_key_eq a b ≡ true) ↔ (a ≡ b)
unfolding cred_key_eq
cred_key_eq_iff a b =
    ground (arith, str_eq_iff a.provider_id b.provider_id, str_eq_iff a.key_id b.key_id)

instance abbrev pub cred_key_Eq : Eq CredKey
cred_key_Eq = record { beq = cred_key_eq; beq_iff = cred_key_eq_iff }

pub record Signal : Type 0 where
  pub outcome : Outcome
  pub status_code : ℕ
  pub retry_after : ℤ
  pub has_retry_after : Bool

pub record Entry : Type 0 where
  pub key : Key
  pub cooling_until : ℕ
  pub backoff_level : ℤ
  pub consecutive_failures : ℤ

pub record State : Type 0 where
  pub cooling_until : ℕ
  pub backoff_level : ℤ
  pub consecutive_failures : ℤ
  pub probing : Bool
  pub retry_after_only : Bool

-- `&state{}`
abbrev pub zero_state : State
zero_state = record {
  cooling_until = 0;
  backoff_level = pos 0;
  consecutive_failures = pos 0;
  probing = false;
  retry_after_only = false;
}

-- `policy` is the source given to `Configure`, as a function of the instant at which it is read:
-- the configuration behind it may change between two calls.
pub record Breaker : Type 0 where
  pub m : Map Key State
  pub last_used : Map CredKey ℕ
  pub trip_after : ℕ
  pub max : ℕ
  pub policy : Option (ℕ → ℤ × ℤ)
  pub dirty : Bool

-- now.Add(d)
abbrev pub add_duration : ℕ → ℤ → ℕ
add_duration t (pos n) = t + n
add_duration t (negsuc n) = t - (n + 1)
