-- ===== src/Exec/Attempts/Turning.antt =====
-- internal/exec/exec.go, the body of the loop in `runAttempts`.
use darkrouter.Base.{
  ℕ, ◌+◌, String, Bool, true, false, not, ◌&&◌, List, [], ◌∷◌, ◌++◌, Option, none, some, ltb, ◌==◌,
  str_eq, if◌then◌else◌,
}
use darkrouter.Adapter.{Outcome, fatal, client_cancelled}
use darkrouter.Exec.Advance.{
  Action, action_finish, action_return, action_next, next_index, advance_skips, trace_skip_of,
}
use darkrouter.Exec.Budget.{Budget, can_start_attempt}
use darkrouter.Router.Types.{Candidate}
use darkrouter.Exec.Attempts.{
  AttemptResult, RequestRecord, Fleet, Env, Loop, Turn, go_on, break_out, return_from,
  path_passthrough, out_of_time, shutdown_error, set_last, or_else,
}
use darkrouter.Ir.{Error}

unfoldable pub is_fatal : Outcome → Bool
is_fatal fatal = true
is_fatal _ = false

-- The part of the retry's condition that reads no clock.
unfoldable pub may_retry : AttemptResult → Bool
unfolding is_fatal
may_retry res =
    str_eq res.path path_passthrough
    && (not res.committed && (is_fatal res.outcome && res.status == 400))

module _ {W : Type 0} where
  -- A candidate passed over before its attempt.
  unfoldable pub pass_over : Loop W → Candidate → String → Loop W
  pass_over s c reason = record s {
    rec = record s.rec { skips = s.rec.skips ++ (trace_skip_of c reason ∷ []) };
    index = s.index + 1;
  }

  -- What the loop keeps of a result.
  unfoldable pub note_result : Loop W → W → AttemptResult → Loop W
  unfolding or_else
  note_result s w res = record s {
    world = w;
    rec = record s.rec { attempts = s.rec.attempts ++ res.rows };
    attempts = if res.issued then s.attempts + 1 else s.attempts;
    last_err = or_else res.err s.last_err;
  }

  unfoldable pub return_with : W → RequestRecord → Option Error → Turn W
  return_with w rec none = return_from w rec none
  return_with w rec (some e) = return_from w (record rec { error_code = e.error_type }) (some e)

  unfoldable pub return_error : Loop W → Turn W
  unfolding return_with
  return_error s = return_with s.world s.rec s.last_err

  -- A client that is gone, by whether the gateway is shutting down.
  unfoldable pub cancelled : Bool → Loop W → Loop W
  unfolding set_last
  cancelled true s = record s {
    last_err = some shutdown_error;
    rec = record s.rec { attempts = set_last s.rec.attempts shutdown_error.message };
  }
  cancelled false s = record s { rec = record s.rec { status = "cancelled" } }

  -- The case `actionReturn`, by the outcome.
  unfoldable pub return_outcome : Env W → Loop W → Outcome → Turn W
  unfolding cancelled return_error
  return_outcome env s client_cancelled = return_error (cancelled (env.shut_down s.world) s)
  return_outcome env s _ = return_error s

  -- The switch on `nextIndex`.
  unfoldable pub act : Env W → List Candidate → Loop W → AttemptResult → ℕ × Action → Turn W
  unfolding return_outcome
  act env cands s res (_, action_finish) =
      let status = if res.client_gone then "cancelled" else "success" in
      return_from s.world (record s.rec { status = status }) none
  act env cands s res (_, action_return) = return_outcome env s res.outcome
  act env cands s res (to, action_next) = go_on (record s {
    rec = record s.rec { skips = s.rec.skips ++ advance_skips cands s.index to };
    index = to;
  })

  unfoldable pub advance : Env W → List Candidate → Loop W → AttemptResult → Turn W
  unfolding act
  advance env cands s res = act env cands s res (next_index cands s.index res.outcome res.status)

  -- The same candidate again, rendered through the IR.
  unfoldable pub retry : Env W → List Candidate → Candidate → Loop W → Turn W
  unfolding note_result advance
  retry env cands c s =
      let (w, res) = env.attempt s.world c (s.attempts + 1) false in
      advance env cands (note_result s w res) res

  unfoldable pub after_attempt :
      Env W → ℕ → Budget → List Candidate → Candidate → Loop W → AttemptResult → Turn W
  unfolding may_retry retry advance
  after_attempt env max_attempts bud cands c s res =
      let (w, now) = env.now s.world in
      if may_retry res && ltb s.attempts max_attempts
      then (if can_start_attempt bud now
          then retry env cands c (record s { world = w })
          else advance env cands (record s { world = w }) res)
      else advance env cands s res

  unfoldable pub first_attempt : Env W → ℕ → Budget → List Candidate → Candidate → Loop W → Turn W
  unfolding note_result after_attempt
  first_attempt env max_attempts bud cands c s =
      let (w, res) = env.attempt s.world c (s.attempts + 1) true in
      after_attempt env max_attempts bud cands c (note_result s w res) res

  -- The live health check and, when it admits the candidate, `MarkUsed` at `now`.
  unfoldable pub check_fleet : Option (Fleet W) → W → Candidate → ℕ → W × Bool
  check_fleet none w c now = (w, true)
  check_fleet (some fleet) w c now =
      let (w1, ok) =
        fleet.available w
          (record { provider_id = c.provider_id; key_id = c.key_id; model = c.model }) in
      if ok
      then (
        fleet.mark_used w1 (record { provider_id = c.provider_id; key_id = c.key_id }) now,
        true,
      )
      else (w1, false)

  -- One turn of the loop, at candidate `c`.
  unfoldable pub turn : Env W → ℕ → Budget → List Candidate → Candidate → Loop W → Turn W
  unfolding check_fleet first_attempt pass_over out_of_time
  turn env max_attempts bud cands c s =
      let (w, now) = env.now s.world in
      let (w1, ok) = check_fleet env.fleet w c now in
      if not (can_start_attempt bud now)
      then break_out (record s { world = w; last_err = some (out_of_time s.last_err) })
      else if not (env.adapter_for c.kind)
      then go_on (pass_over (record s { world = w }) c "no_adapter")
      else if not ok
      then go_on (pass_over (record s { world = w1 }) c "cooling")
      else first_attempt env max_attempts bud cands c (record s { world = w1 })
