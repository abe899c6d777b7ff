-- ===== src/Health/Breaker/Gate.antt =====
-- `Available`, entry by entry: which entries admit a caller, and what the call leaves of them.
use darkrouter.Base.{
  ℕ, ◌≡◌, refl, Bool, true, false, not, ◌&&◌, ◌||◌, Option, none, some, ltb, ◌==◌, lookup,
  lookup-insert, Option-cases, Bool-cases, inl, inr, arith, str_eq, str_eq_iff, if◌then◌else◌, ap,
  ◌∙◌,
}
use darkrouter.Health.Types.{Key, key_Eq, key_eq, key_eq_iff, cred_entry, State, Breaker}
use darkrouter.Health.Breaker.{available_locked, unclaim, available_model, available}

-- The entry admits a caller: it is not cooling, or its cooldown has run out and either nothing
-- was tripped or nobody holds the half-open probe.
abbrev pub admits_entry : State → ℕ → Bool
admits_entry st now =
    st.cooling_until == 0
    || (not (ltb now st.cooling_until) && (st.retry_after_only || not st.probing))

abbrev pub admits : Option State → ℕ → Bool
admits none now = true
admits (some st) now = admits_entry st now

-- The call that is admitted is the half-open probe.
abbrev pub claims_entry : State → ℕ → Bool
claims_entry st now =
    not (st.cooling_until == 0)
    && (not (ltb now st.cooling_until) && (not st.retry_after_only && not st.probing))

abbrev pub claims : Option State → ℕ → Bool
claims none now = false
claims (some st) now = claims_entry st now

-- What the call leaves of an entry.
abbrev pub entered : State → ℕ → State
entered st now =
    if claims_entry st now
    then record st { probing = true }
    else if (not (st.cooling_until == 0) && (not (ltb now st.cooling_until) && st.retry_after_only))
    then record st { cooling_until = 0; retry_after_only = false }
    else st

abbrev pub left : Option State → ℕ → Option State
left none now = none
left (some st) now = some (entered st now)

pub available_locked-ok :
    (b : Breaker) (k : Key) (now : ℕ) → (available_locked b k now).1 ≡ admits (lookup k b.m) now
unfolding available_locked
available_locked-ok b k now = ground arith

pub available_locked-claimed :
    (b : Breaker) (k : Key) (now : ℕ) → (available_locked b k now).2 ≡ claims (lookup k b.m) now
unfolding available_locked
available_locked-claimed b k now = ground arith

pub lookup-available_locked :
    (b : Breaker) (k j : Key) (now : ℕ)
    → lookup j (available_locked b k now).0.m
      ≡ (if key_eq k j then left (lookup k b.m) now else lookup j b.m)
unfolding available_locked
lookup-available_locked b k j now = elim (Option-cases (lookup k b.m)) [
  | inl e ↦ ground (arith, e, key_eq_iff k j)
  | inr (st, e) ↦ ground (
    arith,
    e,
    key_eq_iff k j,
    lookup-insert k j (record st { probing = true }) b.m,
    lookup-insert k j (record st { cooling_until = 0; retry_after_only = false }) b.m,
  )
]

-- The half-open probe of the entry is held.
abbrev pub held : Option State → Bool
held none = false
held (some st) = st.probing

abbrev pub returned : Option State → Option State
returned none = none
returned (some st) = some (record st { probing = false })

pub lookup-unclaim :
    (b : Breaker) (k j : Key)
    → lookup j (unclaim b k).m ≡ (if key_eq k j then returned (lookup k b.m) else lookup j b.m)
unfolding unclaim
lookup-unclaim b k j = elim (Option-cases (lookup k b.m)) [
  | inl e ↦ ground (arith, e, key_eq_iff k j)
  | inr (st, e) ↦
      ground (arith, e, key_eq_iff k j, lookup-insert k j (record st { probing = false }) b.m)
]

-- A triple with a model is not its own credential-level entry.
pub cred_entry-ne : (k : Key) → str_eq k.model "" ≡ false → key_eq (cred_entry k) k ≡ false
cred_entry-ne k h = ground (arith, key_eq_iff (cred_entry k) k, str_eq_iff k.model "")

pub cred_entry-eq : (k : Key) → str_eq k.model "" ≡ true → cred_entry k ≡ k
cred_entry-eq k h = ground (arith, str_eq_iff k.model "")

-- The model's entry is read behind the credential's.
pub second_lookup :
    (b : Breaker) (k : Key) (now : ℕ)
    → str_eq k.model "" ≡ false
    → lookup k (available_locked b (cred_entry k) now).0.m ≡ lookup k b.m
second_lookup b k now h = rw (lookup-available_locked b (cred_entry k) k now, cred_entry-ne k h)

pub second_ok :
    (b : Breaker) (k : Key) (now : ℕ)
    → str_eq k.model "" ≡ false
    → (available_locked (available_locked b (cred_entry k) now).0 k now).1
      ≡ admits (lookup k b.m) now
second_ok b k now h =
    available_locked-ok (available_locked b (cred_entry k) now).0 k now
    ∙ ap (λ o. admits o now) (second_lookup b k now h)

pub available_model-ok :
    (b : Breaker) (k : Key) (now : ℕ)
    → str_eq k.model "" ≡ false
    → (available_model b k now).1
      ≡ (admits (lookup (cred_entry k) b.m) now && admits (lookup k b.m) now)
unfolding available_model
available_model-ok b k now h =
    ground (arith, available_locked-ok b (cred_entry k) now, second_ok b k now h)

-- A caller is admitted exactly when both entries of its triple admit it.
pub available-admits :
    (b : Breaker) (k : Key) (now : ℕ)
    → (available b k now).1 ≡ (admits (lookup (cred_entry k) b.m) now && admits (lookup k b.m) now)
unfolding available
available-admits b k now = elim (Bool-cases (str_eq k.model "")) [
  | inl e ↦
      rw (e, cred_entry-eq k e, available_locked-ok b k now) (and_self (admits (lookup k b.m) now))
  | inr e ↦ rw e (available_model-ok b k now e)
]
  where
    and_self : (t : Bool) → t ≡ (t && t)
    and_self true = refl
    and_self false = refl
