-- ===== src/Health/Breaker/Exclusive.antt =====
-- The half-open probe of internal/health/breaker.go: while it is held, nobody else is admitted.
use darkrouter.Base.{
  ℕ, ◌≡◌, refl, Bool, true, false, ◌&&◌, Option, none, some, List, [], ◌∷◌, All, lookup, arith,
  Bool-cases, inl, inr, sym, subst, ◌∙◌, pos,
}
use darkrouter.Adapter.{client_cancelled}
use darkrouter.Health.Types.{Key, key_Eq, key_eq, key_eq_iff, cred_entry, Signal, State, Breaker}
use darkrouter.Health.Breaker.{
  available_locked, unclaim, available_model, available, release_probe, record_outcome,
  record_signal,
}
use darkrouter.Health.Breaker.Gate.{
  claims, available_locked-claimed, lookup-available_locked, lookup-unclaim, available-admits,
}
use darkrouter.Health.Breaker.Probe.{
  IsTripped, IsShut, Gates, IsShut-admits, refused-left, admitted-IsShut,
}
use darkrouter.Health.Breaker.Signals.{record_signal_frame}

-- A call of the breaker by any request.
pub data Call : Type 0 where
  asks : Key → ℕ → Call
  records : Key → Signal → ℕ → Call
  releases : Key → Call

unfoldable pub perform : Call → Breaker → Breaker
perform (asks k now) b = (available b k now).0
perform (records k s now) b = record_signal b k s now
perform (releases k) b = release_probe b k

unfoldable pub perform_all : List Call → Breaker → Breaker
unfolding perform
perform_all [] b = b
perform_all (c ∷ cs) b = perform_all cs (perform c b)

-- The call does not give the probe of `i` back: it asks, or is about a triple that `i` does not gate.
abbrev pub Leaves : Key → Call → Type 0
Leaves i (asks k now) = Unit {0}
Leaves i (records k s now) = ¬ Gates k i
Leaves i (releases k) = ¬ Gates k i

shut_refuses :
    (b : Breaker) (j i : Key) (later : ℕ)
    → Gates j i
    → IsShut (lookup i b.m)
    → (available b j later).1 ≡ false
shut_refuses b j i later (inl p) s =
    rw (available-admits b j later, p, IsShut-admits (lookup i b.m) later s) (and_false _)
  where
    and_false : (t : Bool) → (t && false) ≡ false
    and_false true = refl
    and_false false = refl
shut_refuses b j i later (inr p) s =
    rw (available-admits b j later, p, IsShut-admits (lookup i b.m) later s)

IsShut-claims : (o : Option State) (now : ℕ) → IsShut o → claims o now ≡ false
IsShut-claims none now h = refl
IsShut-claims (some st) now h = ground arith

locked_shut :
    (b : Breaker) (k i : Key) (now : ℕ)
    → IsShut (lookup i b.m)
    → lookup i (available_locked b k now).0.m ≡ lookup i b.m
locked_shut b k i now s = elim (Bool-cases (key_eq k i)) [
  | inr e ↦ rw (lookup-available_locked b k i now, e) refl
  | inl e ↦
      let same = (key_eq_iff k i).0 e in
      rw (lookup-available_locked b k i now, e, same)
        (refused-left (lookup i b.m) now (IsShut-admits (lookup i b.m) now s))
]

-- A claim that is given back is another entry's.
unclaim_shut :
    (b c : Breaker) (k i : Key) (now : ℕ)
    → IsShut (lookup i b.m)
    → (available_locked b k now).2 ≡ true
    → lookup i (unclaim c k).m ≡ lookup i c.m
unclaim_shut b c k i now s e = elim (Bool-cases (key_eq k i)) [
  | inr n ↦ rw (lookup-unclaim c k i, n) refl
  | inl y ↦
      let claimed = sym (available_locked-claimed b k now) ∙ e in
      let same = (key_eq_iff k i).0 y in
      absurd (
        cc (
          subst (λ j. claims (lookup j b.m) now ≡ true) same claimed,
          IsShut-claims (lookup i b.m) now s,
        ))
]

available_model_shut :
    (b : Breaker) (k i : Key) (now : ℕ)
    → IsShut (lookup i b.m)
    → lookup i (available_model b k now).0.m ≡ lookup i b.m
unfolding available_model
available_model_shut b k i now s =
    let b1 = (available_locked b (cred_entry k) now).0 in
    let first = locked_shut b (cred_entry k) i now s in
    let second = locked_shut b1 k i now (subst IsShut (sym first) s) in
    ground
      (arith, first, second, unclaim_shut b (available_locked b1 k now).0 (cred_entry k) i now s)

available_shut :
    (b : Breaker) (k i : Key) (now : ℕ)
    → IsShut (lookup i b.m)
    → lookup i (available b k now).0.m ≡ lookup i b.m
unfolding available
available_shut b k i now s =
    ground (arith, locked_shut b k i now s, available_model_shut b k i now s)

release_shut :
    (b : Breaker) (k i : Key) → ¬ Gates k i → lookup i (release_probe b k).m ≡ lookup i b.m
unfolding record_signal record_outcome
release_shut b k i n = record_signal_frame b k i cancelled 0 (λ e. n (inl e)) (λ e. n (inr e))
  where
    cancelled : Signal
    cancelled = record {
      outcome = client_cancelled;
      status_code = 0;
      retry_after = pos 0;
      has_retry_after = false;
    }

perform_shut :
    (c : Call) (b : Breaker) (i : Key)
    → Leaves i c
    → IsShut (lookup i b.m)
    → lookup i (perform c b).m ≡ lookup i b.m
unfolding perform
perform_shut (asks k now) b i l s = available_shut b k i now s
perform_shut (records k t now) b i l s =
    record_signal_frame b k i t now (λ e. l (inl e)) (λ e. l (inr e))
perform_shut (releases k) b i l s = release_shut b k i l

perform_all-IsShut :
    (cs : List Call) (b : Breaker) (i : Key)
    → All (Leaves i) cs
    → IsShut (lookup i b.m)
    → IsShut (lookup i (perform_all cs b).m)
unfolding perform_all
perform_all-IsShut [] b i l s = s
perform_all-IsShut (c ∷ cs) b i l s =
    perform_all-IsShut cs (perform c b) i l.1 (subst IsShut (sym (perform_shut c b i l.0 s)) s)

-- Once a caller was admitted past a tripped entry, that entry admits nobody else, neither the same
-- triple nor, where the entry is the credential's, any triple of the credential, at any time and
-- after any calls of the breaker by other requests, as long as no outcome is recorded and no probe
-- released for a triple that the entry gates.
pub available_once :
    (b : Breaker) (k j i : Key) (now later : ℕ) (calls : List Call)
    → Gates k i
    → Gates j i
    → IsTripped (lookup i b.m)
    → (available b k now).1 ≡ true
    → All (Leaves i) calls
    → (available (perform_all calls (available b k now).0) j later).1 ≡ false
available_once b k j i now later calls gk gj t e l =
    let after = (available b k now).0 in
    shut_refuses (perform_all calls after) j i later gj
      (perform_all-IsShut calls after i l (admitted-IsShut b k i now gk t e))
