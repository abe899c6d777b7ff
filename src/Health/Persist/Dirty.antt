-- ===== src/Health/Persist/Dirty.antt =====
-- What the dirty flag of the breaker promises the persister.
use darkrouter.Base.{
  insert, ap, ℕ, ◌≡◌, refl, ◌⊎◌, inl, inr, Bool, true, false, not, List, [], ◌∷◌, Option, none,
  some, ℤ, lookup, lookup-insert, str_eq, Bool-cases, Option-cases, arith, ◌∙◌, if◌then◌else◌, sym,
}
use darkrouter.Adapter.{
  Outcome, success, retryable_provider, retryable_credential, retryable_model, fatal,
  client_cancelled, other,
}
use darkrouter.Health.Types.{
  Key, key_Eq, key_eq, key_eq_iff, CredKey, cred_entry, Signal, State, Breaker,
}
use darkrouter.Health.Breaker.{
  available_locked, available_model, available, unclaim, release_probe_locked, release_probe,
  reset_locked, cool_locked, record_outcome, record_signal, take_dirty,
}
use darkrouter.Health.Breaker.Entries.{record_provider_failure_lem}
use darkrouter.Health.Breaker.Gate.{claims_entry}
use darkrouter.Health.Lru.{mark_used}

-- What the durable copy holds of an entry.
abbrev pub persisted : Option State → Option (ℕ × ℤ × ℤ)
persisted none = none
persisted (some st) = some (st.cooling_until, st.backoff_level, st.consecutive_failures)

abbrev pub SamePersisted : Breaker → Breaker → Type 0
SamePersisted b c = (j : Key) → persisted (lookup j c.m) ≡ persisted (lookup j b.m)

-- From `b` to `c` the flag was set, or neither the flag nor the durable part changed.
abbrev Tracked : Breaker → Breaker → Type 0
Tracked b c = (c.dirty ≡ true) ⊎ ((c.dirty ≡ b.dirty) × SamePersisted b c)

Tracked-refl : (b : Breaker) → Tracked b b
Tracked-refl b = inr (refl, λ j. refl)

Tracked-trans : (a b c : Breaker) → Tracked a b → Tracked b c → Tracked a c
Tracked-trans a b c p (inl d) = inl d
Tracked-trans a b c (inl d) (inr (e, same)) = inl (e ∙ d)
Tracked-trans a b c (inr (e, same)) (inr (e', same')) = inr (e' ∙ e, λ j. same' j ∙ same j)

-- An operation that sets the flag, or leaves the breaker alone.
Flagged : Breaker → Breaker → Type 0
Flagged b c = (c.dirty ≡ true) ⊎ (c ≡ b)

Flagged-Tracked : (b c : Breaker) → Flagged b c → Tracked b c
unfolding Flagged
Flagged-Tracked b c (inl d) = inl d
Flagged-Tracked b c (inr e) = rw e (Tracked-refl b)

release-Flagged : (b : Breaker) (k : Key) → Flagged b (release_probe_locked b k)
unfolding release_probe_locked Flagged
release-Flagged b k = ground arith

reset-Flagged : (b : Breaker) (k : Key) → Flagged b (reset_locked b k)
unfolding reset_locked Flagged
reset-Flagged b k = ground arith

release-Tracked : (b : Breaker) (k : Key) → Tracked b (release_probe_locked b k)
release-Tracked b k = Flagged-Tracked b _ (release-Flagged b k)

reset-Tracked : (b : Breaker) (k : Key) → Tracked b (reset_locked b k)
reset-Tracked b k = Flagged-Tracked b _ (reset-Flagged b k)

release_both-Tracked : (b : Breaker) (k : Key) → Tracked b (release_probe b k)
unfolding release_probe
release_both-Tracked b k =
    Tracked-trans b (release_probe_locked b k) (release_probe b k) (release-Tracked b k)
      (release-Tracked (release_probe_locked b k) (cred_entry k))

record-Tracked :
    (o : Outcome) (b : Breaker) (k : Key) (s : Signal) (now : ℕ)
    → Tracked b (record_outcome o b k s now)
unfolding record_outcome release_probe cool_locked
record-Tracked client_cancelled b k s now = release_both-Tracked b k
record-Tracked retryable_model b k s now = release_both-Tracked b k
record-Tracked success b k s now =
    Tracked-trans b (reset_locked b k) (reset_locked (reset_locked b k) (cred_entry k))
      (reset-Tracked b k) (reset-Tracked (reset_locked b k) (cred_entry k))
record-Tracked fatal b k s now =
    Tracked-trans b (reset_locked b k) (release_probe_locked (reset_locked b k) (cred_entry k))
      (reset-Tracked b k) (release-Tracked (reset_locked b k) (cred_entry k))
record-Tracked retryable_credential b k s now = inl refl
record-Tracked retryable_provider b k s now =
    inl (rw (record_provider_failure_lem (release_probe_locked b (cred_entry k)) k s now))
record-Tracked (other _) b k s now = Tracked-refl b

-- A write that leaves the durable part of the entry alone.
rewrite-Tracked :
    (b : Breaker) (k : Key) (st : State)
    → persisted (some st) ≡ persisted (lookup k b.m)
    → Tracked b (record b { m = insert k st b.m })
rewrite-Tracked b k st h = inr (refl, same)
  where
    same : (j : Key) → persisted (lookup j (insert k st b.m)) ≡ persisted (lookup j b.m)
    same j = elim (Bool-cases (key_eq k j)) [
      | inl e ↦ rw (lookup-insert k j st b.m, e) (rw ((key_eq_iff k j).0 e) at h)
      | inr e ↦ rw (lookup-insert k j st b.m, e)
    ]

-- A call of `Available` that sets no flag writes at most the probe, which is not persisted.
locked-Tracked : (b : Breaker) (k : Key) (now : ℕ) → Tracked b (available_locked b k now).0
locked-Tracked b k now = elim (Option-cases (lookup k b.m)) [
  | inl e ↦
      Flagged-Tracked b (available_locked b k now).0
        (unfold available_locked Flagged in ground arith)
  | inr (st, e) ↦ elim (Bool-cases (claims_entry st now)) [
    | inl claimed ↦
        let probe : (available_locked b k now).0
            ≡ record b { m = insert k (record st { probing = true }) b.m } =
          unfold available_locked in ground arith in
        rw probe (rewrite-Tracked b k (record st { probing = true }) (ap persisted (sym e)))
    | inr plain ↦
        Flagged-Tracked b (available_locked b k now).0
          (unfold available_locked Flagged in ground arith)
  ]
]

unclaim-Tracked : (b : Breaker) (k : Key) → Tracked b (unclaim b k)
unfolding unclaim
unclaim-Tracked b k = elim (Option-cases (lookup k b.m)) [
  | inl e ↦ rw (e, unclaim) (Tracked-refl b)
  | inr (st, e) ↦
      rw (e, unclaim) (rewrite-Tracked b k (record st { probing = false }) (ap persisted (sym e)))
]

if_Tracked :
    (b : Breaker) (t : Bool) (c d : Breaker)
    → Tracked b c
    → Tracked b d
    → Tracked b (if t then c else d)
if_Tracked b true c d h g = h
if_Tracked b false c d h g = g

-- A choice between two results.
choice-Tracked {ℓ} :
    {A : Type ℓ} (b : Breaker) (t : Bool) (p q : Breaker × A)
    → Tracked b p.0
    → Tracked b q.0
    → Tracked b (if t then p else q).0
choice-Tracked b true p q h g = h
choice-Tracked b false p q h g = g

available_model-Tracked : (b : Breaker) (k : Key) (now : ℕ) → Tracked b (available_model b k now).0
unfolding available_model
available_model-Tracked b k now =
    let ck = cred_entry k in
    let b1 = (available_locked b ck now).0 in
    let b2 = (available_locked b1 k now).0 in
    let first : Tracked b b1 = locked-Tracked b ck now in
    let second : Tracked b b2 = Tracked-trans b b1 b2 first (locked-Tracked b1 k now) in
    let back : Tracked b (unclaim b2 ck) =
      Tracked-trans b b2 (unclaim b2 ck) second (unclaim-Tracked b2 ck) in
    choice-Tracked b (not (available_locked b ck now).1) (b1, false) _ first
      (choice-Tracked b (not (available_locked b1 k now).1) _ (b2, true)
        (if_Tracked b (available_locked b ck now).2 (unclaim b2 ck) b2 back second) second)

available-Tracked : (b : Breaker) (k : Key) (now : ℕ) → Tracked b (available b k now).0
unfolding available
available-Tracked b k now =
    choice-Tracked b (str_eq k.model "") _ _ (locked-Tracked b k now)
      (available_model-Tracked b k now)

-- The calls that the executor makes on the breaker between two turns of the persister.
pub data Call : Type 0 where
  availables : Key → ℕ → Call
  records : Key → Signal → ℕ → Call
  releases : Key → Call
  marks : CredKey → ℕ → Call

unfoldable pub call : Breaker → Call → Breaker
call b (availables k now) = (available b k now).0
call b (records k s now) = record_signal b k s now
call b (releases k) = release_probe b k
call b (marks ck at) = mark_used b ck at

unfoldable pub run : Breaker → List Call → Breaker
run b [] = b
run b (c ∷ cs) = run (call b c) cs

call-Tracked : (b : Breaker) (c : Call) → Tracked b (call b c)
unfolding call record_signal mark_used
call-Tracked b (availables k now) = available-Tracked b k now
call-Tracked b (records k s now) = record-Tracked s.outcome b k s now
call-Tracked b (releases k) = release_both-Tracked b k
call-Tracked b (marks ck at) = inl refl

run-Tracked : (b : Breaker) (cs : List Call) → Tracked b (run b cs)
unfolding run
run-Tracked b [] = Tracked-refl b
run-Tracked b (c ∷ cs) =
    Tracked-trans b (call b c) (run (call b c) cs) (call-Tracked b c) (run-Tracked (call b c) cs)

-- A tick of the persister that finds the flag clear skips the write, and rightly: whatever calls
-- were made since the flag was last cleared, every entry is what the last snapshot said of it.
pub run-SamePersisted :
    (b : Breaker) (cs : List Call)
    → (take_dirty (run (take_dirty b).0 cs)).1 ≡ false
    → SamePersisted b (run (take_dirty b).0 cs)
unfolding take_dirty
run-SamePersisted b cs h = elim (run-Tracked (record b { dirty = false }) cs) [
  | inl d ↦ cc
  | inr t ↦ t.1
]
