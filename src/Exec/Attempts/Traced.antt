-- ===== src/Exec/Attempts/Traced.antt =====
-- The loop over a world that also keeps the attempts made, the latest first, each with whether it
-- was allowed to forward the client's body.
use darkrouter.Base.{
  if_holds, str_eq_iff, ℕ, ◌+◌, ◌<◌, ◌≤◌, Bool, true, false, not, ◌&&◌, List, [], ◌∷◌, Option, none,
  some, length, suc, ltb, if◌then◌else◌, ◌≡◌, refl, sym, ap, subst, ◌∙◌, arith,
}
use darkrouter.Adapter.{
  Outcome, success, retryable_provider, retryable_credential, retryable_model, fatal,
  client_cancelled, other,
}
use darkrouter.Exec.Attempts.{AttemptResult, Fleet, Env, Loop, Turn}
use darkrouter.Exec.Attempts.Turning.{
  is_fatal, may_retry, advance, note_result, retry, after_attempt, first_attempt, check_fleet, turn,
  pass_over,
}
use darkrouter.Exec.Attempts.Turns.{going, TurnHolds, TurnHolds-map, advance_ends}
use darkrouter.Exec.Budget.{Budget, can_start_attempt}
use darkrouter.Health.Types.{Key}
use darkrouter.Router.Types.{Candidate}

abbrev pub Log : Type 0
Log = List (Candidate × Bool × AttemptResult)

abbrev pub issued_count : Log → ℕ
issued_count [] = 0
issued_count ((_, _, r) ∷ rest) = if r.issued then suc (issued_count rest) else issued_count rest

-- A forwarded body that the provider answered with 400, fatally and before anything was committed.
pub record IsRejectedBody (r : AttemptResult) : Type 0 where
  pub by_passthrough : r.path ≡ "passthrough"
  pub uncommitted : r.committed ≡ false
  pub is_fatal_outcome : r.outcome ≡ fatal
  pub bad_request : r.status ≡ 400

-- Why an attempt at `y` was made after `log`, and whether it may forward the body: it may where it
-- is the first or the one before lets the chain go on; it may not where it is the retry, at the same
-- candidate, of one that was allowed to and whose body was rejected.
pub data Justified : Candidate → Bool → Log → Type 0 where
  opening : {y : Candidate} → Justified y true []
  onward :
      {y c : Candidate} {f : Bool} {r : AttemptResult} {rest : Log}
      → going r.outcome ≡ true
      → Justified y true ((c, f, r) ∷ rest)
  retrying :
      {y : Candidate} {r : AttemptResult} {rest : Log}
      → IsRejectedBody r
      → Justified y false ((y, true, r) ∷ rest)

abbrev pub IsChain : Log → Type 0
IsChain [] = Unit
IsChain ((c, f, r) ∷ rest) = Justified c f rest × IsChain rest

abbrev GoingAtHead : Log → Type 0
GoingAtHead [] = Unit
GoingAtHead ((c, f, r) ∷ rest) = going r.outcome ≡ true

Going-Justified : (y : Candidate) (log : Log) → GoingAtHead log → Justified y true log
Going-Justified y [] h = opening
Going-Justified y ((c, f, r) ∷ rest) h = onward h

is_fatal-fatal : (o : Outcome) → is_fatal o ≡ true → o ≡ fatal
unfolding is_fatal
is_fatal-fatal fatal h = refl
is_fatal-fatal success h = absurd (cc h)
is_fatal-fatal client_cancelled h = absurd (cc h)
is_fatal-fatal retryable_credential h = absurd (cc h)
is_fatal-fatal retryable_model h = absurd (cc h)
is_fatal-fatal retryable_provider h = absurd (cc h)
is_fatal-fatal (other _) h = absurd (cc h)

may_retry-IsRejectedBody : (r : AttemptResult) → may_retry r ≡ true → IsRejectedBody r
unfolding may_retry
may_retry-IsRejectedBody r h = record {
  by_passthrough = (str_eq_iff r.path "passthrough").0 (ground (arith, h));
  uncommitted = ground (arith, h);
  is_fatal_outcome = is_fatal-fatal r.outcome (ground (arith, h));
  bad_request = ground (arith, h);
}

module _ {W : Type 0} where
  abbrev pub traced_fleet : Option (Fleet W) → Option (Fleet (W × Log))
  traced_fleet none = none
  traced_fleet (some f) = some (record {
    available = λ w k. (((f.available w.0 k).0, w.1), (f.available w.0 k).1);
    mark_used = λ w k now. (f.mark_used w.0 k now, w.1);
  })

  abbrev pub traced : Env W → Env (W × Log)
  traced env = record {
    now = λ w. (((env.now w.0).0, w.1), (env.now w.0).1);
    adapter_for = env.adapter_for;
    fleet = traced_fleet env.fleet;
    attempt = λ w c seq forward. (
      ((env.attempt w.0 c seq forward).0, (c, forward, (env.attempt w.0 c seq forward).1) ∷ w.1),
      (env.attempt w.0 c seq forward).1,
    );
    shut_down = λ w. env.shut_down w.0;
  }

  -- At the head of the loop.
  abbrev pub Ready : ℕ → Loop (W × Log) → Type 0
  Ready max_attempts s =
      (issued_count s.world.1 ≡ s.attempts)
      × (s.attempts ≤ max_attempts)
      × IsChain s.world.1
      × GoingAtHead s.world.1

  abbrev pub Done : ℕ → W × Log → Type 0
  Done max_attempts w = (issued_count w.1 ≤ max_attempts) × IsChain w.1

  -- After an attempt at `c` with result `r`.
  abbrev Noted : ℕ → Candidate → Bool → AttemptResult → Loop (W × Log) → Type 0
  Noted max_attempts c f r s =
      (issued_count s.world.1 ≡ s.attempts)
      × (s.attempts ≤ max_attempts)
      × IsChain s.world.1
      × ((log : Log) × (s.world.1 ≡ (c, f, r) ∷ log))

  advance-Ready :
      (env : Env (W × Log)) (max_attempts : ℕ) (cands : List Candidate) (c : Candidate) (f : Bool)
      (r : AttemptResult) (s : Loop (W × Log))
      → s.index < length cands
      → Noted max_attempts c f r s
      → TurnHolds
          (λ t. (s.index < t.index) × Ready max_attempts t)
          (Done max_attempts)
          (advance env cands s r)
  advance-Ready env m cands c f r s l (n, le, ch, (log, e)) =
      TurnHolds-map (advance env cands s r)
        (λ t (w, a, i, g). (
          i,
          (
            ap (λ v. issued_count v.1) w ∙ (n ∙ sym a),
            omega (arith, le, a),
            subst (λ v. IsChain v.1) (sym w) ch,
            subst GoingAtHead (sym (ap (λ v. v.1) w ∙ e)) g,
          ),
        ))
        (λ w e.
          (omega (arith, ap (λ v. issued_count v.1) e, n, le), subst (λ v. IsChain v.1) (sym e) ch))
        (advance_ends env cands s r l)

  -- One more attempt, at `c`, is logged with what it counts for.
  note_Noted :
      (env : Env W) (max_attempts : ℕ) (c : Candidate) (s : Loop (W × Log)) (forward : Bool)
      → issued_count s.world.1 ≡ s.attempts
      → s.attempts < max_attempts
      → IsChain s.world.1
      → Justified c forward s.world.1
      → Noted max_attempts c forward ((traced env).attempt s.world c (s.attempts + 1) forward).1 (
          note_result s
            ((traced env).attempt s.world c (s.attempts + 1) forward).0
            ((traced env).attempt s.world c (s.attempts + 1) forward).1)
  unfolding note_result
  note_Noted env m c s forward n l ch j =
      let r = (env.attempt s.world.0 c (s.attempts + 1) forward).1 in
      (ground (arith, n), ground (arith, l), (j, ch), (s.world.1, refl))

  abbrev EndsTurn : ℕ → ℕ → Turn (W × Log) → Type 0
  EndsTurn i max_attempts t =
      TurnHolds (λ s. (i < s.index) × Ready max_attempts s) (Done max_attempts) t

  retry_Ready :
      (env : Env W) (max_attempts : ℕ) (cands : List Candidate) (c : Candidate) (s : Loop (W × Log))
      → s.index < length cands
      → issued_count s.world.1 ≡ s.attempts
      → s.attempts < max_attempts
      → IsChain s.world.1
      → Justified c false s.world.1
      → EndsTurn s.index max_attempts (retry (traced env) cands c s)
  unfolding retry note_result
  retry_Ready env m cands c s l n a ch j =
      let w = (traced env).attempt s.world c (s.attempts + 1) false in
      advance-Ready (traced env) m cands c false w.1 (note_result s w.0 w.1) l
        (note_Noted env m c s false n a ch j)

  after_attempt_Ready :
      (env : Env W) (max_attempts : ℕ) (bud : Budget) (cands : List Candidate) (c : Candidate)
      (r : AttemptResult) (s : Loop (W × Log))
      → s.index < length cands
      → Noted max_attempts c true r s
      → EndsTurn s.index max_attempts (after_attempt (traced env) max_attempts bud cands c s r)
  unfolding after_attempt
  after_attempt_Ready env m bud cands c r s l h =
      let now = (traced env).now s.world in
      let s1 = record s { world = now.0 } in
      if_holds (EndsTurn s.index m) (may_retry r && ltb s.attempts m) _ _
        (λ t.
          if_holds (EndsTurn s.index m) (can_start_attempt bud now.1) _ _
            (λ _. retry_Ready env m cands c s1 l h.0 (ground (arith, t)) h.2 (
              subst (Justified c false) (sym h.3.1)
                (retrying (may_retry-IsRejectedBody r (ground (arith, t))))))
            (λ _. advance-Ready (traced env) m cands c true r s1 l h))
        (λ _. advance-Ready (traced env) m cands c true r s l h)

  first_attempt-Ready :
      (env : Env W) (max_attempts : ℕ) (bud : Budget) (cands : List Candidate) (c : Candidate)
      (s : Loop (W × Log))
      → s.index < length cands
      → s.attempts < max_attempts
      → Ready max_attempts s
      → EndsTurn s.index max_attempts (first_attempt (traced env) max_attempts bud cands c s)
  unfolding first_attempt note_result
  first_attempt-Ready env m bud cands c s l a h =
      let w = (traced env).attempt s.world c (s.attempts + 1) true in
      after_attempt_Ready env m bud cands c w.1 (note_result s w.0 w.1) l
        (note_Noted env m c s true h.0 a h.2 (Going-Justified c s.world.1 h.3))

  check_fleet_log :
      (fleet : Option (Fleet W)) (w : W × Log) (c : Candidate) (now : ℕ)
      → (check_fleet (traced_fleet fleet) w c now).0.1 ≡ w.1
  unfolding check_fleet
  check_fleet_log none w c now = refl
  check_fleet_log (some f) w c now =
      let k : Key = record { provider_id = c.provider_id; key_id = c.key_id; model = c.model } in
      if_holds (λ (r : (W × Log) × Bool). r.0.1 ≡ w.1) (f.available w.0 k).1 _ _ (λ _. refl)
        (λ _. refl)

  pub turn-Ready :
      (env : Env W) (max_attempts : ℕ) (bud : Budget) (cands : List Candidate) (c : Candidate)
      (s : Loop (W × Log))
      → s.index < length cands
      → s.attempts < max_attempts
      → Ready max_attempts s
      → EndsTurn s.index max_attempts (turn (traced env) max_attempts bud cands c s)
  unfolding turn pass_over
  turn-Ready env m bud cands c s l a h =
      let now = (traced env).now s.world in
      let f = check_fleet (traced env).fleet now.0 c now.1 in
      let s1 = record s { world = f.0 } in
      let e = check_fleet_log env.fleet now.0 c now.1 in
      let h1 : Ready m s1 =
        (ap issued_count e ∙ h.0, h.1, subst IsChain (sym e) h.2, subst GoingAtHead (sym e) h.3) in
      if_holds (EndsTurn s.index m) (not (can_start_attempt bud now.1)) _ _
        (λ _. (omega (arith, h.0, h.1), h.2))
        (λ _.
          if_holds (EndsTurn s.index m) (not (env.adapter_for c.kind)) _ _ (λ _. (omega arith, h))
            (λ _.
              if_holds (EndsTurn s.index m) (not f.1) _ _ (λ _. (omega arith, h1))
                (λ _. first_attempt-Ready env m bud cands c s1 l a h1)))
