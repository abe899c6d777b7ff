-- ===== src/Exec/Attempts/Run.antt =====
-- internal/exec/exec.go, `runAttempts` as a whole.
use darkrouter.Base.{ℕ, true, false, List, Option, none, some, length, get_elem?, suc, zero, ltb}
use darkrouter.Exec.Budget.{Timeouts, Budget, new_budget}
use darkrouter.Router.Types.{Candidate}
use darkrouter.Exec.Attempts.{RequestRecord, Env, Loop, go_on, break_out, return_from}
use darkrouter.Ir.{Error}
use darkrouter.Exec.Attempts.Turning.{turn}

unfoldable pub last_error : Option Error → Error
last_error none = record { error_type = "api_error"; message = "every candidate failed"; code = "" }
last_error (some e) = e

module _ {W : Type 0} where
  -- What is left after the loop.
  unfoldable pub give_up : Loop W → W × RequestRecord × Option Error
  unfolding last_error
  give_up s =
      let e = last_error s.last_err in (s.world, record s.rec { error_code = e.error_type }, some e)

  -- The loop, for at most `fuel` turns; `none` when they do not suffice.
  unfoldable pub run :
      ℕ → Env W → ℕ → Budget → List Candidate → Loop W → Option (W × RequestRecord × Option Error)
  unfolding give_up turn
  run zero env max_attempts bud cands s = none
  run (suc fuel) env max_attempts bud cands s = elim (get_elem? cands s.index) [
    | none ↦ some (give_up s)
    | some c ↦ elim (ltb s.attempts max_attempts) [
      | false ↦ some (give_up s)
      | true ↦ elim (turn env max_attempts bud cands c s) [
        | go_on s1 ↦ run fuel env max_attempts bud cands s1
        | break_out s1 ↦ some (give_up s1)
        | return_from w rec answer ↦ some (w, rec, answer)
      ]
    ]
  ]

  unfoldable pub start_loop : W → RequestRecord → Loop W
  start_loop w rec = record { world = w; rec = rec; index = 0; attempts = 0; last_err = none }

  -- One more turn than candidates suffices.
  unfoldable pub run_attempts :
      Env W
      → ℕ
      → Timeouts
      → ℕ
      → List Candidate
      → W
      → RequestRecord
      → Option (W × RequestRecord × Option Error)
  unfolding start_loop run
  run_attempts env max_attempts timeouts start cands w rec =
      run (suc (length cands)) env max_attempts (new_budget timeouts start) cands (start_loop w rec)
