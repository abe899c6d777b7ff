-- ===== src/Health/Persist/Keyed.antt =====
-- The map of entries stays a map: one entry to a key, through every call.
use darkrouter.Base.{
  ℕ, inl, inr, Bool, true, false, List, [], ◌∷◌, ℤ, lookup, insert, Distinct, insert-Distinct,
  erase-Distinct, Option-cases, arith,
}
use darkrouter.Adapter.{
  Outcome, success, retryable_provider, retryable_credential, retryable_model, fatal,
  client_cancelled, other,
}
use darkrouter.Health.Types.{Key, key_Eq, Entry, Signal, State, Breaker, cred_entry}
use darkrouter.Health.Breaker.{
  rehydrated, rehydrate, new, available_locked, available_model, available, unclaim,
  release_probe_locked, release_probe, reset_locked, cool_locked, record_provider_failure,
  record_outcome, record_signal,
}
use darkrouter.Health.Breaker.Entries.{record_provider_failure_lem}
use darkrouter.Health.Lru.{mark_used}
use darkrouter.Health.Persist.Dirty.{Call, availables, records, releases, marks, call, run}

-- One entry to a key.
pub record IsKeyed (b : Breaker) : Type 0 where
  pub distinct : Distinct b.m

insert-IsKeyed :
    (b : Breaker) (k : Key) (st : State) (dirty : Bool)
    → IsKeyed b
    → IsKeyed (record b { m = insert k st b.m; dirty = dirty })
insert-IsKeyed b k st dirty h = record { distinct = insert-Distinct k st b.m h.distinct }

locked-IsKeyed :
    (b : Breaker) (k : Key) (now : ℕ) → IsKeyed b → IsKeyed (available_locked b k now).0
unfolding available_locked
locked-IsKeyed b k now h = elim (Option-cases (lookup k b.m)) [
  | inl e ↦ rw (e, available_locked) h
  | inr (st, e) ↦
      rw (e, available_locked)
        (ground (
          arith,
          insert-IsKeyed b k (record st { probing = true }) b.dirty h,
          insert-IsKeyed b k (record st { cooling_until = 0; retry_after_only = false }) true h,
        ))
]

unclaim-IsKeyed : (b : Breaker) (k : Key) → IsKeyed b → IsKeyed (unclaim b k)
unfolding unclaim
unclaim-IsKeyed b k h = elim (Option-cases (lookup k b.m)) [
  | inl e ↦ rw (e, unclaim) h
  | inr (st, e) ↦ rw (e, unclaim) (insert-IsKeyed b k (record st { probing = false }) b.dirty h)
]

release-IsKeyed : (b : Breaker) (k : Key) → IsKeyed b → IsKeyed (release_probe_locked b k)
unfolding release_probe_locked
release-IsKeyed b k h = elim (Option-cases (lookup k b.m)) [
  | inl e ↦ rw (e, release_probe_locked) h
  | inr (st, e) ↦
      rw (e, release_probe_locked)
        (ground (arith, insert-IsKeyed b k (record st { probing = false }) true h))
]

reset-IsKeyed : (b : Breaker) (k : Key) → IsKeyed b → IsKeyed (reset_locked b k)
unfolding reset_locked
reset-IsKeyed b k h = elim (Option-cases (lookup k b.m)) [
  | inl e ↦ rw (e, reset_locked) h
  | inr (st, e) ↦ rw (e, reset_locked) (record { distinct = erase-Distinct k b.m h.distinct })
]

cool-IsKeyed :
    (b : Breaker) (k : Key) (st : State) (now : ℕ) (level : ℤ)
    → IsKeyed b
    → IsKeyed (cool_locked b k st now level)
unfolding cool_locked
cool-IsKeyed b k st now level h = insert-IsKeyed b k _ true h

failure-IsKeyed :
    (b : Breaker) (k : Key) (s : Signal) (now : ℕ)
    → IsKeyed b
    → IsKeyed (record_provider_failure b k s now)
failure-IsKeyed b k s now h =
    rw (record_provider_failure_lem b k s now) (insert-IsKeyed b k _ true h)

ruleset keyed_rules =
    (locked-IsKeyed, unclaim-IsKeyed, release-IsKeyed, reset-IsKeyed, cool-IsKeyed, failure-IsKeyed)

model-IsKeyed : (b : Breaker) (k : Key) (now : ℕ) → IsKeyed b → IsKeyed (available_model b k now).0
unfolding available_model
model-IsKeyed b k now h =
    let b1 = (available_locked b (cred_entry k) now).0 in
    let b2 = (available_locked b1 k now).0 in
    let first : IsKeyed b1 = search keyed_rules in
    let second : IsKeyed b2 = search keyed_rules in
    ground (arith, first, second, unclaim-IsKeyed b2 (cred_entry k) second)

available-IsKeyed : (b : Breaker) (k : Key) (now : ℕ) → IsKeyed b → IsKeyed (available b k now).0
unfolding available
available-IsKeyed b k now h = ground (arith, locked-IsKeyed b k now h, model-IsKeyed b k now h)

record-IsKeyed :
    (o : Outcome) (b : Breaker) (k : Key) (s : Signal) (now : ℕ)
    → IsKeyed b
    → IsKeyed (record_outcome o b k s now)
unfolding record_outcome release_probe
record-IsKeyed client_cancelled b k s now h = search keyed_rules
record-IsKeyed retryable_model b k s now h = search keyed_rules
record-IsKeyed success b k s now h = search keyed_rules
record-IsKeyed fatal b k s now h = search keyed_rules
record-IsKeyed retryable_credential b k s now h = search keyed_rules
record-IsKeyed retryable_provider b k s now h = search keyed_rules
record-IsKeyed (other _) b k s now h = h

call-IsKeyed : (b : Breaker) (c : Call) → IsKeyed b → IsKeyed (call b c)
unfolding call record_signal mark_used release_probe
call-IsKeyed b (availables k now) h = available-IsKeyed b k now h
call-IsKeyed b (records k s now) h = record-IsKeyed s.outcome b k s now h
call-IsKeyed b (releases k) h = search keyed_rules
call-IsKeyed b (marks ck at) h = record { distinct = h.distinct }

pub run-IsKeyed : (b : Breaker) (cs : List Call) → IsKeyed b → IsKeyed (run b cs)
unfolding run
run-IsKeyed b [] h = h
run-IsKeyed b (c ∷ cs) h = run-IsKeyed (call b c) cs (call-IsKeyed b c h)

pub rehydrate-IsKeyed :
    (b : Breaker) (es : List Entry) (now : ℕ) → IsKeyed b → IsKeyed (rehydrate b es now)
unfolding rehydrate
rehydrate-IsKeyed b [] now h = h
rehydrate-IsKeyed b (e ∷ es) now h =
    rehydrate-IsKeyed (record b { m = insert e.key (rehydrated e now) b.m }) es now
      (insert-IsKeyed b e.key (rehydrated e now) b.dirty h)

-- However a breaker came about, made anew, restored from stored entries and used in any way, its
-- map has one entry to a key.
pub lifetime-IsKeyed :
    (trip_after max : ℤ) (es : List Entry) (now : ℕ) (cs : List Call)
    → IsKeyed (run (rehydrate (new trip_after max) es now) cs)
unfolding new
lifetime-IsKeyed trip_after max es now cs =
    run-IsKeyed (rehydrate (new trip_after max) es now) cs
      (rehydrate-IsKeyed (new trip_after max) es now (record { distinct = tt }))
