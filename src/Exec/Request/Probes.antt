-- ===== src/Exec/Request/Probes.antt =====
-- The half-open probes of the breaker over a whole request.
use darkrouter.Base.{
  ℕ, Bool, true, false, List, Option, none, some, length, lookup, if_holds, ◌≡◌, refl, sym, subst,
  ◌∙◌, arith, Bool-cases, inl, inr,
}
use darkrouter.Adapter.{IsKnown}
use darkrouter.Exec.Attempt.{key_of}
use darkrouter.Exec.Attempt.Outcomes.{Classifies}
use darkrouter.Exec.Attempt.Told.{record_all, attempt-signals}
use darkrouter.Exec.Attempts.{RequestRecord}
use darkrouter.Exec.Attempts.Kept.{Keeps, run-Ends}
use darkrouter.Exec.Attempts.Run.{run_attempts, start_loop}
use darkrouter.Exec.Attempts.Turning.{check_fleet}
use darkrouter.Exec.Budget.{Timeouts, new_budget}
use darkrouter.Exec.Request.{Outside, World, new_attempt, fleet, make_attempt, wired}
use darkrouter.Health.Breaker.{available, record_signal}
use darkrouter.Health.Breaker.Entries.{Unprobed}
use darkrouter.Health.Breaker.Gate.{held, lookup-available_locked}
use darkrouter.Health.Breaker.Probe.{available_refused, available_model-entries}
use darkrouter.Health.Breaker.Signals.{record_signal-Unprobed, record_signal_frame}
use darkrouter.Health.Lru.{mark_used}
use darkrouter.Health.Types.{Key, key_Eq, key_eq, key_eq_iff, cred_entry, Signal, State, Breaker}
use darkrouter.Ir.{Error}
use darkrouter.Router.Types.{Candidate}

-- No entry of the breaker is held; none but those of a triple is.
abbrev pub NoProbe : Breaker → Type 0
NoProbe b = (j : Key) → Unprobed (lookup j b.m)

abbrev pub OnlyAt : Key → Breaker → Type 0
OnlyAt k b =
    (j : Key) → key_eq k j ≡ false → key_eq (cred_entry k) j ≡ false → Unprobed (lookup j b.m)

Unprobed-held : (o : Option State) → Unprobed o → held o ≡ false
Unprobed-held none h = refl
Unprobed-held (some st) h = h

held-Unprobed : (o : Option State) → held o ≡ false → Unprobed o
held-Unprobed none h = tt
held-Unprobed (some st) h = h

available_frame :
    (b : Breaker) (k j : Key) (now : ℕ)
    → key_eq k j ≡ false
    → key_eq (cred_entry k) j ≡ false
    → (available b k now).1 ≡ true
    → lookup j (available b k now).0.m ≡ lookup j b.m
unfolding available
available_frame b k j now p q e =
    ground (arith, p, q, e, available_model-entries b k j now, lookup-available_locked b k j now)

available-OnlyAt :
    (b : Breaker) (k : Key) (now : ℕ)
    → NoProbe b
    → (available b k now).1 ≡ true
    → OnlyAt k (available b k now).0
available-OnlyAt b k now h e j p q = subst Unprobed (sym (available_frame b k j now p q e)) (h j)

available-NoProbe :
    (b : Breaker) (k : Key) (now : ℕ)
    → NoProbe b
    → (available b k now).1 ≡ false
    → NoProbe (available b k now).0
available-NoProbe b k now h e j =
    held-Unprobed _ (available_refused b k j now e ∙ Unprobed-held _ (h j))

record_signal-NoProbe :
    (b : Breaker) (k : Key) (s : Signal) (now : ℕ)
    → OnlyAt k b
    → IsKnown s.outcome
    → NoProbe (record_signal b k s now)
record_signal-NoProbe b k s now h known j =
    let (own, cred) = record_signal-Unprobed b k s now known in
    elim (Bool-cases (key_eq k j)) [
      | inl e ↦
          subst (λ i. Unprobed (lookup i (record_signal b k s now).m)) ((key_eq_iff k j).0 e) own
      | inr e ↦ elim (Bool-cases (key_eq (cred_entry k) j)) [
        | inl f ↦
            subst (λ i. Unprobed (lookup i (record_signal b k s now).m))
              ((key_eq_iff (cred_entry k) j).0 f) cred
        | inr f ↦
            subst Unprobed
              (sym (
                record_signal_frame b k j s now (ground (arith, e, key_eq_iff k j))
                  (ground (arith, f, key_eq_iff (cred_entry k) j))))
              (h j e f)
      ]
    ]

module _ {X : Type 0} (o : Outside X) where
  abbrev Idle : World X → Type 0
  Idle w = NoProbe w.breaker

  abbrev Busy : Candidate → World X → Type 0
  Busy c w = OnlyAt (key_of c) w.breaker

  make_attempt-Idle :
      ((x : X) (c : Candidate) (seq : ℕ) (forward : Bool)
        → Classifies (o.exchange x c seq forward).1)
      → (w : World X) (c : Candidate) (seq : ℕ) (forward : Bool) → Busy c w
      → Idle (make_attempt o w c seq forward).0
  unfolding make_attempt record_all new_attempt
  make_attempt-Idle known w c seq forward h =
      let (x, ex) = o.exchange w.outside c seq forward in
      let ac = new_attempt c w.request in
      let sur = o.surfaces w.outside c seq forward in
      let (s, l, k, _) =
        attempt-signals ex sur ac forward (known w.outside c seq forward) refl refl in
      subst (λ signals. NoProbe (record_all w.breaker signals (o.clock x))) (sym l)
        (record_signal-NoProbe w.breaker (key_of c) s (o.clock x) h k)

  checked :
      (w : World X) (c : Candidate) (now : ℕ)
      → Idle w
      → let r = check_fleet (some (fleet o)) w c now in
        (r.1 ≡ true → Busy c r.0) × (r.1 ≡ false → Idle r.0)
  unfolding check_fleet fleet key_of mark_used
  checked w c now h =
      let k = key_of c in
      let t = o.clock w.outside in
      if_holds (λ (r : World X × Bool). (r.1 ≡ true → Busy c r.0) × (r.1 ≡ false → Idle r.0))
        (available w.breaker k t).1 _ _
        (λ e. ((λ _. available-OnlyAt w.breaker k t h e), (λ f. absurd (cc f))))
        (λ e. ((λ f. absurd (cc f)), (λ _. available-NoProbe w.breaker k t h e)))

  wired-Keeps :
      ((x : X) (c : Candidate) (seq : ℕ) (forward : Bool)
        → Classifies (o.exchange x c seq forward).1)
      → Keeps (wired o) Idle Busy
  unfolding wired
  wired-Keeps known = record {
    now_keeps = λ w h. h;
    idle_busy = λ c w h j p q. h j;
    fleet_admits = λ w c now h. (checked w c now h).0;
    fleet_refuses = λ w c now h. (checked w c now h).1;
    attempt_keeps = make_attempt-Idle known;
  }

-- A request never leaks a half-open probe. Whatever the outside answers, with the classifiers of
-- the adapters answering by constants, the loop ends, over any candidates and however it ends:
-- when no probe of the breaker was held before the request, none is held after it.
pub run_attempts-NoProbe :
    {X : Type 0} (o : Outside X) (max_attempts : ℕ) (timeouts : Timeouts) (start : ℕ)
    (cands : List Candidate) (w : World X) (rec : RequestRecord)
    → ((x : X) (c : Candidate) (seq : ℕ) (forward : Bool)
        → Classifies (o.exchange x c seq forward).1)
    → NoProbe w.breaker
    → (out : World X × RequestRecord × Option Error) × (run_attempts
          (wired o)
          max_attempts
          timeouts
          start
          cands
          w
          rec
        ≡ some out)
      × NoProbe out.0.breaker
unfolding run_attempts start_loop
run_attempts-NoProbe o max_attempts timeouts start cands w rec known h =
    run-Ends (wired o) (Idle o) (Busy o) (wired-Keeps o known) max_attempts
      (new_budget timeouts start) cands (length cands) (start_loop w rec) (omega arith) h
