-- ===== src/Health/Breaker/Probe.antt =====
-- The half-open probe of internal/health/breaker.go: who holds it, and who gives it back.
use darkrouter.Base.{
  ℕ, ◌≡◌, ◌≢◌, refl, Bool, true, false, ◌||◌, Option, none, some, lookup, beq_refl, Bool-cases, ◌⊎◌,
  inl, inr, arith, str_eq, if◌then◌else◌,
}
use darkrouter.Health.Types.{Key, key_Eq, key_eq, key_eq_iff, cred_entry, State, Breaker}
use darkrouter.Health.Breaker.{available_locked, unclaim, available_model, available}
use darkrouter.Health.Breaker.Gate.{
  admits, claims, left, held, returned, available_locked-ok, available_locked-claimed,
  lookup-available_locked, lookup-unclaim, cred_entry-eq, second_lookup, available_model-ok,
}

-- What an admitted call leaves under each key: its two entries are entered, the rest is as it was.
pub available_model-entries :
    (b : Breaker) (k j : Key) (now : ℕ)
    → str_eq k.model "" ≡ false
    → (available_model b k now).1 ≡ true
    → lookup j (available_model b k now).0.m ≡ (
        if key_eq k j
        then left (lookup k b.m) now
        else if key_eq (cred_entry k) j
        then left (lookup (cred_entry k) b.m) now
        else lookup j b.m)
unfolding available_model
available_model-entries b k j now h e = ground (
  arith,
  second_lookup b k now h,
  lookup-available_locked b (cred_entry k) j now,
  lookup-available_locked (available_locked b (cred_entry k) now).0 k j now,
)

-- A refusal changes no claim.
held-left : (o : Option State) (now : ℕ) → held (left o now) ≡ (held o || claims o now)
held-left none now = refl
held-left (some st) now = ground arith

pub refused-left : (o : Option State) (now : ℕ) → admits o now ≡ false → left o now ≡ o
refused-left none now h = refl
refused-left (some st) now h = ground arith

returned-left :
    (o : Option State) (now : ℕ) → claims o now ≡ true → held (returned (left o now)) ≡ held o
returned-left none now h = refl
returned-left (some st) now h = ground arith

refused_locked :
    (b : Breaker) (k j : Key) (now : ℕ)
    → (available_locked b k now).1 ≡ false
    → lookup j (available_locked b k now).0.m ≡ lookup j b.m
refused_locked b k j now e = ground (
  arith,
  lookup-available_locked b k j now,
  available_locked-ok b k now,
  refused-left (lookup k b.m) now,
  key_eq_iff k j,
)

held_locked :
    (b : Breaker) (k j : Key) (now : ℕ)
    → (available_locked b k now).2 ≡ false
    → held (lookup j (available_locked b k now).0.m) ≡ held (lookup j b.m)
held_locked b k j now e = ground (
  arith,
  lookup-available_locked b k j now,
  available_locked-claimed b k now,
  held-left (lookup k b.m) now,
  key_eq_iff k j,
)

-- The claim that is given back is the one that this call made.
held-unclaim :
    (b b2 : Breaker) (k j : Key) (now : ℕ)
    → (available_locked b k now).2 ≡ true
    → lookup k b2.m ≡ lookup k (available_locked b k now).0.m
    → lookup j b2.m ≡ lookup j (available_locked b k now).0.m
    → held (lookup j (unclaim b2 k).m) ≡ held (lookup j b.m)
held-unclaim b b2 k j now e own any = ground (
  arith,
  lookup-unclaim b2 k j,
  lookup-available_locked b k k now,
  lookup-available_locked b k j now,
  available_locked-claimed b k now,
  returned-left (lookup k b.m) now,
  key_eq_iff k j,
  beq_refl k,
)

refused_model :
    (b : Breaker) (k j : Key) (now : ℕ)
    → (available_model b k now).1 ≡ false
    → held (lookup j (available_model b k now).0.m) ≡ held (lookup j b.m)
unfolding available_model
refused_model b k j now e =
    let b1 = (available_locked b (cred_entry k) now).0 in
    ground (
      arith,
      refused_locked b (cred_entry k) j now,
      refused_locked b1 k j now,
      refused_locked b1 k (cred_entry k) now,
      held_locked b (cred_entry k) j now,
      held-unclaim b (available_locked b1 k now).0 (cred_entry k) j now,
    )

-- A caller that is refused holds nothing: the call changes no claim on any entry.
pub available_refused :
    (b : Breaker) (k j : Key) (now : ℕ)
    → (available b k now).1 ≡ false
    → held (lookup j (available b k now).0.m) ≡ held (lookup j b.m)
unfolding available
available_refused b k j now e = ground (arith, refused_locked b k j now, refused_model b k j now)

-- A ladder cooldown lies on the entry.
abbrev pub IsTripped : Option State → Type 0
IsTripped none = ⊥
IsTripped (some st) = (st.cooling_until ≢ 0) × (st.retry_after_only ≡ false)

-- An entry that is tripped and held admits nobody.
abbrev pub IsShut : Option State → Type 0
IsShut none = ⊥
IsShut (some st) = (st.cooling_until ≢ 0) × (st.retry_after_only ≡ false) × (st.probing ≡ true)

pub IsShut-admits : (o : Option State) (later : ℕ) → IsShut o → admits o later ≡ false
IsShut-admits none later h = absurd h
IsShut-admits (some st) later h = ground arith

IsTripped-left :
    (o : Option State) (now : ℕ) → IsTripped o → admits o now ≡ true → IsShut (left o now)
IsTripped-left none now h e = h
IsTripped-left (some st) now h e = ground arith

if_IsShut :
    (t : Bool) (o p : Option State)
    → (t ≡ true → IsShut o)
    → (t ≡ false → IsShut p)
    → IsShut (if t then o else p)
if_IsShut true o p h g = h refl
if_IsShut false o p h g = g refl

-- `Available` reads the entry `i` for the triple `k`.
abbrev pub Gates : Key → Key → Type 0
Gates k i = (k ≡ i) ⊎ (cred_entry k ≡ i)

admitted_model-IsShut :
    (b : Breaker) (k i : Key) (now : ℕ)
    → str_eq k.model "" ≡ false
    → Gates k i
    → IsTripped (lookup i b.m)
    → (available_model b k now).1 ≡ true
    → IsShut (lookup i (available_model b k now).0.m)
admitted_model-IsShut b k i now h g t e =
    let (c, o) = both_admit in
    rw (available_model-entries b k i now h e) (
      if_IsShut (key_eq k i) _ _ (λ p. own ((key_eq_iff k i).0 p) o)
        (λ n.
          if_IsShut (key_eq (cred_entry k) i) _ _
            (λ p. credential ((key_eq_iff (cred_entry k) i).0 p) c)
            (λ m. absurd (ground (arith, key_eq_iff k i, key_eq_iff (cred_entry k) i)))))
  where
    both_admit :
        (admits (lookup (cred_entry k) b.m) now ≡ true) × (admits (lookup k b.m) now ≡ true)
    both_admit = ground (arith, available_model-ok b k now h)

    own : k ≡ i → admits (lookup k b.m) now ≡ true → IsShut (left (lookup k b.m) now)
    own p = IsTripped-left (lookup k b.m) now (rw p t)

    credential :
        cred_entry k ≡ i
        → admits (lookup (cred_entry k) b.m) now ≡ true
        → IsShut (left (lookup (cred_entry k) b.m) now)
    credential p = IsTripped-left (lookup (cred_entry k) b.m) now (rw p t)

admitted_own-IsShut :
    (b : Breaker) (k i : Key) (now : ℕ)
    → k ≡ i
    → IsTripped (lookup i b.m)
    → (available_locked b k now).1 ≡ true
    → IsShut (lookup i (available_locked b k now).0.m)
admitted_own-IsShut b k i now p t e =
    rw (lookup-available_locked b k i now, (key_eq_iff k i).1 p)
      (IsTripped-left (lookup k b.m) now (rw p t) (ground (arith, available_locked-ok b k now)))

-- A caller that is admitted past a tripped entry holds the entry's probe.
pub admitted-IsShut :
    (b : Breaker) (k i : Key) (now : ℕ)
    → Gates k i
    → IsTripped (lookup i b.m)
    → (available b k now).1 ≡ true
    → IsShut (lookup i (available b k now).0.m)
unfolding available
admitted-IsShut b k i now g t e = elim (Bool-cases (str_eq k.model "")) [
  | inl bare ↦
      rw bare
        (admitted_own-IsShut b k i now (ground (arith, cred_entry-eq k bare)) t (ground arith))
  | inr model ↦ rw model (admitted_model-IsShut b k i now model g t (ground arith))
]
