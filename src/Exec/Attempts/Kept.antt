-- ===== src/Exec/Attempts/Kept.antt =====
-- What the loop keeps of its world: an invariant that holds between attempts, and what holds once
-- a candidate has been admitted and until its attempt is over.
use darkrouter.Base.{
  if_holds, ℕ, zero, suc, ◌+◌, ◌<◌, ◌≤◌, Bool, true, false, not, ◌&&◌, List, Option, some, length,
  get_elem?, ltb, ◌≡◌, refl, sym, subst, arith, Bool-cases, Option-cases, inl, inr,
}
use darkrouter.Exec.Attempts.{
  AttemptResult, RequestRecord, Env, Loop, Turn, go_on, break_out, return_from,
}
use darkrouter.Exec.Attempts.Bounds.{get_elem?-inside, get_elem?-outside}
use darkrouter.Exec.Attempts.Run.{run, give_up}
use darkrouter.Exec.Attempts.Turning.{
  may_retry, advance, note_result, retry, after_attempt, first_attempt, check_fleet, turn,
  pass_over,
}
use darkrouter.Exec.Attempts.Turns.{TurnHolds, TurnHolds-map, advance_ends}
use darkrouter.Exec.Budget.{Budget, can_start_attempt}
use darkrouter.Ir.{Error}
use darkrouter.Router.Types.{Candidate}

-- `Idle` between attempts and `Busy c` while one at `c` may run. A check of the fleet that admits
-- the candidate makes it busy, one that does not leaves it idle.
pub record Keeps {W : Type 0} (env : Env W) (Idle : W → Type 0) (Busy : Candidate → W → Type 0)
    : Type 0 where
  pub now_keeps : (w : W) → Idle w → Idle (env.now w).0
  pub idle_busy : (c : Candidate) (w : W) → Idle w → Busy c w
  pub fleet_admits :
      (w : W) (c : Candidate) (now : ℕ)
      → Idle w
      → (check_fleet env.fleet w c now).1 ≡ true
      → Busy c (check_fleet env.fleet w c now).0
  pub fleet_refuses :
      (w : W) (c : Candidate) (now : ℕ)
      → Idle w
      → (check_fleet env.fleet w c now).1 ≡ false
      → Idle (check_fleet env.fleet w c now).0
  pub attempt_keeps :
      (w : W) (c : Candidate) (seq : ℕ) (forward : Bool)
      → Busy c w
      → Idle (env.attempt w c seq forward).0

module _ {W : Type 0} (env : Env W) (Idle : W → Type 0) (Busy : Candidate → W → Type 0)
    (keeps : Keeps env Idle Busy) (max_attempts : ℕ) (bud : Budget) (cands : List Candidate) where
  abbrev Goes : ℕ → Turn W → Type 0
  Goes i t = TurnHolds (λ s. (i < s.index) × Idle s.world) Idle t

  advance-Goes :
      (s : Loop W) (r : AttemptResult)
      → s.index < length cands
      → Idle s.world
      → Goes s.index (advance env cands s r)
  advance-Goes s r l h =
      TurnHolds-map (advance env cands s r) (λ t (w, a, i, g). (i, subst Idle (sym w) h))
        (λ w e. subst Idle (sym e) h) (advance_ends env cands s r l)

  retry-Goes :
      (c : Candidate) (s : Loop W)
      → s.index < length cands
      → Idle s.world
      → Goes s.index (retry env cands c s)
  unfolding retry note_result
  retry-Goes c s l h =
      let (w, r) = env.attempt s.world c (s.attempts + 1) false in
      advance-Goes (note_result s w r) r l
        (keeps.attempt_keeps s.world c (s.attempts + 1) false (keeps.idle_busy c s.world h))

  after_attempt-Goes :
      (c : Candidate) (s : Loop W) (r : AttemptResult)
      → s.index < length cands
      → Idle s.world
      → Goes s.index (after_attempt env max_attempts bud cands c s r)
  unfolding after_attempt
  after_attempt-Goes c s r l h =
      let (w, now) = env.now s.world in
      let later = keeps.now_keeps s.world h in
      if_holds (Goes s.index) (may_retry r && ltb s.attempts max_attempts) _ _
        (λ t.
          if_holds (Goes s.index) (can_start_attempt bud now) _ _
            (λ u. retry-Goes c (record s { world = w }) l later)
            (λ u. advance-Goes (record s { world = w }) r l later))
        (λ t. advance-Goes s r l h)

  first_attempt-Goes :
      (c : Candidate) (s : Loop W)
      → s.index < length cands
      → Busy c s.world
      → Goes s.index (first_attempt env max_attempts bud cands c s)
  unfolding first_attempt note_result
  first_attempt-Goes c s l h =
      let (w, r) = env.attempt s.world c (s.attempts + 1) true in
      after_attempt-Goes c (note_result s w r) r l
        (keeps.attempt_keeps s.world c (s.attempts + 1) true h)

  turn-Goes :
      (c : Candidate) (s : Loop W)
      → s.index < length cands
      → Idle s.world
      → Goes s.index (turn env max_attempts bud cands c s)
  unfolding turn pass_over
  turn-Goes c s l h =
      let (w, now) = env.now s.world in
      let later = keeps.now_keeps s.world h in
      let (w1, ok) = check_fleet env.fleet w c now in
      if_holds (Goes s.index) (not (can_start_attempt bud now)) _ _ (λ t. later)
        (λ t.
          if_holds (Goes s.index) (not (env.adapter_for c.kind)) _ _ (λ u. (omega arith, later))
            (λ u.
              if_holds (Goes s.index) (not ok) _ _
                (λ v. (omega arith, keeps.fleet_refuses w c now later (ground (arith, v))))
                (λ v.
                  first_attempt-Goes c (record s { world = w1 }) l
                    (keeps.fleet_admits w c now later (ground (arith, v))))))

  abbrev Ends : Option (W × RequestRecord × Option Error) → Type 0
  Ends r = (out : W × RequestRecord × Option Error) × (r ≡ some out) × Idle out.0

  give_up-Ends : (s : Loop W) → Idle s.world → Ends (some (give_up s))
  unfolding give_up
  give_up-Ends s h = (give_up s, refl, h)

  after_turn-Ends :
      (fuel i : ℕ) (t : Turn W)
      → Goes i t
      → ((s : Loop W) → i < s.index → Idle s.world → Ends (run fuel env max_attempts bud cands s))
      → Ends (elim t [
        | go_on s1 ↦ run fuel env max_attempts bud cands s1
        | break_out s1 ↦ some (give_up s1)
        | return_from w rec answer ↦ some (w, rec, answer)
      ])
  after_turn-Ends fuel i (go_on s) h f = f s h.0 h.1
  after_turn-Ends fuel i (break_out s) h f = give_up-Ends s h
  after_turn-Ends fuel i (return_from w rec answer) h f = ((w, rec, answer), refl, h)

  pub run-Ends :
      (fuel : ℕ) (s : Loop W)
      → length cands ≤ fuel + s.index
      → Idle s.world
      → Ends (run (suc fuel) env max_attempts bud cands s)
  unfolding run
  run-Ends zero s l h =
      rw (run, get_elem?-outside cands s.index (omega (arith, l))) (give_up-Ends s h)
  run-Ends (suc fuel) s l h = elim (Option-cases (get_elem? cands s.index)) [
    | inl e ↦ rw (run, e) (give_up-Ends s h)
    | inr (c, e) ↦ elim (Bool-cases (ltb s.attempts max_attempts)) [
      | inl a ↦
          rw (run, e, a)
            (after_turn-Ends (suc fuel) s.index (turn env max_attempts bud cands c s)
              (turn-Goes c s (get_elem?-inside cands s.index c e) h)
              (λ s1 i r. run-Ends fuel s1 (omega (arith, l, i)) r))
      | inr a ↦ rw (run, e, a) (give_up-Ends s h)
    ]
  ]
