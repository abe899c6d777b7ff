-- ===== src/Exec/Attempts/Turns.antt =====
-- What one turn of the loop can do, for any clock, fleet and provider.
use darkrouter.Base.{ℕ, ◌<◌, Bool, true, false, List, Option, none, some, length, ◌≡◌, refl}
use darkrouter.Adapter.{
  Outcome, success, retryable_provider, retryable_credential, retryable_model, fatal,
  client_cancelled, other,
}
use darkrouter.Exec.Advance.{Action, action_finish, action_return, action_next, next_index}
use darkrouter.Exec.Advance.Jumps.{next_index_progress}
use darkrouter.Exec.Attempts.{
  shutdown_error, AttemptResult, RequestRecord, Env, Loop, Turn, go_on, break_out, return_from,
}
use darkrouter.Ir.{Error}
use darkrouter.Exec.Attempts.Turning.{
  return_error, cancelled, return_with, return_outcome, act, advance,
}
use darkrouter.Router.Types.{Candidate}

-- An outcome after which the chain goes on.
abbrev pub going : Outcome → Bool
going success = false
going fatal = false
going client_cancelled = false
going _ = true

next-going :
    (cs : List Candidate) (i : ℕ) (o : Outcome) (status : ℕ)
    → (next_index cs i o status).1 ≡ action_next
    → going o ≡ true
unfolding next_index
next-going cs i success status h = absurd (cc h)
next-going cs i fatal status h = absurd (cc h)
next-going cs i client_cancelled status h = absurd (cc h)
next-going cs i retryable_credential status h = refl
next-going cs i retryable_model status h = refl
next-going cs i retryable_provider status h = refl
next-going cs i (other _) status h = refl

module _ {W : Type 0} where
  -- The turn ends well: the loop goes on in a state of which `I` holds, or ends in a world of
  -- which `P` holds.
  abbrev pub TurnHolds : (Loop W → Type 0) → (W → Type 0) → Turn W → Type 0
  TurnHolds I P (go_on s) = I s
  TurnHolds I P (break_out s) = P s.world
  TurnHolds I P (return_from w rec answer) = P w

  pub TurnHolds-map :
      {I J : Loop W → Type 0} {P Q : W → Type 0} (t : Turn W)
      → ((s : Loop W) → I s → J s)
      → ((w : W) → P w → Q w)
      → TurnHolds I P t
      → TurnHolds J Q t
  TurnHolds-map (go_on s) f g h = f s h
  TurnHolds-map (break_out s) f g h = g s.world h
  TurnHolds-map (return_from w rec answer) f g h = g w h

  return_with_world :
      (I : Loop W → Type 0) (w : W) (rec : RequestRecord) (e : Option Error)
      → TurnHolds I (λ v. v ≡ w) (return_with w rec e)
  unfolding return_with
  return_with_world I w rec none = refl
  return_with_world I w rec (some e) = refl

  cancelled_world :
      (I : Loop W → Type 0) (b : Bool) (s : Loop W)
      → TurnHolds I (λ v. v ≡ s.world) (return_error (cancelled b s))
  unfolding cancelled return_error
  cancelled_world I true s =
      return_with_world I s.world (cancelled true s).rec (some shutdown_error)
  cancelled_world I false s = return_with_world I s.world (cancelled false s).rec s.last_err

  return_outcome_world :
      (I : Loop W → Type 0) (env : Env W) (s : Loop W) (o : Outcome)
      → TurnHolds I (λ w. w ≡ s.world) (return_outcome env s o)
  unfolding return_outcome return_error
  return_outcome_world I env s client_cancelled = cancelled_world I (env.shut_down s.world) s
  return_outcome_world I env s success = return_with_world I s.world s.rec s.last_err
  return_outcome_world I env s fatal = return_with_world I s.world s.rec s.last_err
  return_outcome_world I env s retryable_provider = return_with_world I s.world s.rec s.last_err
  return_outcome_world I env s retryable_credential = return_with_world I s.world s.rec s.last_err
  return_outcome_world I env s retryable_model = return_with_world I s.world s.rec s.last_err
  return_outcome_world I env s (other x) = return_with_world I s.world s.rec s.last_err

  -- How the loop goes on from `s` after a result of which `o` is the outcome.
  abbrev pub GoesOn : Loop W → Outcome → Loop W → Type 0
  GoesOn s o t =
      (t.world ≡ s.world) × (t.attempts ≡ s.attempts) × (s.index < t.index) × (going o ≡ true)

  act_ends :
      (env : Env W) (cands : List Candidate) (s : Loop W) (res : AttemptResult) (to : ℕ)
      (a : Action)
      → (a ≡ action_next → (s.index < to) × (going res.outcome ≡ true))
      → TurnHolds (GoesOn s res.outcome) (λ w. w ≡ s.world) (act env cands s res (to, a))
  unfolding act
  act_ends env cands s res to action_finish h = refl
  act_ends env cands s res to action_return h =
      return_outcome_world (GoesOn s res.outcome) env s res.outcome
  act_ends env cands s res to action_next h = (refl, refl, (h refl).0, (h refl).1)

  pub advance_ends :
      (env : Env W) (cands : List Candidate) (s : Loop W) (res : AttemptResult)
      → s.index < length cands
      → TurnHolds (GoesOn s res.outcome) (λ w. w ≡ s.world) (advance env cands s res)
  unfolding advance
  advance_ends env cands s res l =
      let n = next_index cands s.index res.outcome res.status in
      act_ends env cands s res n.0 n.1 (λ e. (
        (next_index_progress cands s.index res.outcome res.status l e).0,
        next-going cands s.index res.outcome res.status e,
      ))
