-- ===== src/Exec/Attempts/Bounds.antt =====
-- What the loop over the candidates promises a request.
use darkrouter.Base.{
  ℕ, zero, suc, ◌+◌, ◌<◌, ◌≤◌, List, [], ◌∷◌, Option, none, some, length, get_elem?, ltb, ◌≡◌, refl,
  arith, ltb→lt, Bool-cases, Option-cases, inl, inr,
}
use darkrouter.Exec.Attempts.{RequestRecord, Env, Loop, Turn, go_on, break_out, return_from}
use darkrouter.Ir.{Error}
use darkrouter.Exec.Attempts.Run.{run, run_attempts, start_loop, give_up}
use darkrouter.Exec.Attempts.Traced.{Log, issued_count, IsChain, traced, Ready, Done, turn-Ready}
use darkrouter.Exec.Attempts.Turning.{turn}
use darkrouter.Exec.Attempts.Turns.{TurnHolds}
use darkrouter.Exec.Budget.{Timeouts, Budget, new_budget}
use darkrouter.Router.Types.{Candidate}

pub get_elem?-inside :
    {A : Type 0} (xs : List A) (i : ℕ) (a : A) → get_elem? xs i ≡ some a → i < length xs
get_elem?-inside [] i a h = absurd (cc h)
get_elem?-inside (x ∷ xs) zero a h = omega arith
get_elem?-inside (x ∷ xs) (suc i) a h = omega (arith, get_elem?-inside xs i a h)

pub get_elem?-outside : {A : Type 0} (xs : List A) (i : ℕ) → length xs ≤ i → get_elem? xs i ≡ none
get_elem?-outside [] i h = refl
get_elem?-outside (x ∷ xs) zero h = absurd (omega (arith, h))
get_elem?-outside (x ∷ xs) (suc i) h = get_elem?-outside xs i (omega (arith, h))

module _ {W : Type 0} (env : Env W) (max_attempts : ℕ) (bud : Budget) (cands : List Candidate) where
  abbrev Result : Type 0
  Result = (W × Log) × RequestRecord × Option Error

  abbrev RunsTo : Option Result → Type 0
  RunsTo r = (out : Result) × (r ≡ some out) × Done max_attempts out.0

  give_up-Done : (s : Loop (W × Log)) → Done max_attempts s.world → RunsTo (some (give_up s))
  unfolding give_up
  give_up-Done s h = (give_up s, refl, h)

  after_turn-Done :
      (fuel i : ℕ) (t : Turn (W × Log))
      → TurnHolds (λ s. (i < s.index) × Ready max_attempts s) (Done max_attempts) t
      → ((s : Loop (W × Log))
          → i < s.index
          → Ready max_attempts s
          → RunsTo (run fuel (traced env) max_attempts bud cands s))
      → RunsTo (elim t [
        | go_on s1 ↦ run fuel (traced env) max_attempts bud cands s1
        | break_out s1 ↦ some (give_up s1)
        | return_from w rec answer ↦ some (w, rec, answer)
      ])
  after_turn-Done fuel i (go_on s) h f = f s h.0 h.1
  after_turn-Done fuel i (break_out s) h f = give_up-Done s h
  after_turn-Done fuel i (return_from w rec answer) h f = ((w, rec, answer), refl, h)

  Ready-Done : (s : Loop (W × Log)) → Ready max_attempts s → Done max_attempts s.world
  Ready-Done s h = (omega (arith, h.0, h.1), h.2)

  run-Done :
      (fuel : ℕ) (s : Loop (W × Log))
      → length cands ≤ fuel + s.index
      → Ready max_attempts s
      → RunsTo (run (suc fuel) (traced env) max_attempts bud cands s)
  unfolding run
  run-Done zero s l h =
      rw (run, get_elem?-outside cands s.index (omega (arith, l))) (give_up-Done s (Ready-Done s h))
  run-Done (suc fuel) s l h = elim (Option-cases (get_elem? cands s.index)) [
    | inl e ↦ rw (run, e) (give_up-Done s (Ready-Done s h))
    | inr (c, e) ↦ elim (Bool-cases (ltb s.attempts max_attempts)) [
      | inl a ↦
          rw (run, e, a)
            (after_turn-Done (suc fuel) s.index (turn (traced env) max_attempts bud cands c s)
              (turn-Ready env max_attempts bud cands c s (get_elem?-inside cands s.index c e)
                (ltb→lt s.attempts max_attempts a) h)
              (λ s1 i r. run-Done fuel s1 (omega (arith, l, i)) r))
      | inr a ↦ rw (run, e, a) (give_up-Done s (Ready-Done s h))
    ]
  ]

-- For any clock, fleet, adapters and provider, the loop ends, and the attempts that it made
-- satisfy the retry policy: at most `max_attempts` of them reached a provider, and each but the
-- first came after one whose outcome lets the chain go on (so none after a success, a fatal error
-- or a cancelled client), or is the retry, at the same candidate and without forwarding, of one that
-- was allowed to forward, did so and was answered 400 with a fatal outcome before anything was
-- committed. A retry is not allowed to forward, so none is retried again.
pub run_attempts_policy :
    {W : Type 0} (env : Env W) (max_attempts : ℕ) (timeouts : Timeouts) (start : ℕ)
    (cands : List Candidate) (w : W) (rec : RequestRecord)
    → (out : (W × Log) × RequestRecord × Option Error) × (run_attempts
          (traced env)
          max_attempts
          timeouts
          start
          cands
          (w, [])
          rec
        ≡ some out)
      × ((issued_count out.0.1 ≤ max_attempts) × IsChain out.0.1)
unfolding run_attempts start_loop
run_attempts_policy env max_attempts timeouts start cands w rec =
    run-Done env max_attempts (new_budget timeouts start) cands (length cands)
      (start_loop (w, []) rec) (omega arith) (refl, omega arith, tt, tt)
