-- ===== src/Exec/Attempts.antt =====
-- internal/exec/exec.go, `runAttempts`: the loop over the router's candidates. The clock, the
-- live health of the fleet, one upstream attempt and the reason the client went away are read
-- through `Env`, over a world `W` that they and the other requests in flight change.
pub mod Turning
pub mod Run
pub mod Turns
pub mod Traced
pub mod Bounds
pub mod Kept
use darkrouter.Base.{
  ℕ, ◌+◌, String, Bool, true, false, not, ◌&&◌, List, [], ◌∷◌, ◌++◌, Option, none, some, length,
  get_elem?, suc, zero, ltb, ◌==◌, str_eq, if◌then◌else◌,
}
use darkrouter.Adapter.{
  Outcome, success, retryable_provider, retryable_credential, retryable_model, fatal,
  client_cancelled, other,
}
use darkrouter.Exec.Advance.{
  Action, action_finish, action_return, action_next, next_index, advance_skips, trace_skip_of,
}
use darkrouter.Exec.Budget.{Timeouts, Budget, new_budget, can_start_attempt}
use darkrouter.Health.Types.{Key, CredKey}
use darkrouter.Ir.{Error}
use darkrouter.Router.Types.{Candidate}
use Prim.Native.String.{◌++◌ as ◌+++◌}

-- `attemptResult`, and the errors of the attempt rows that the attempt added to the record.
pub record AttemptResult : Type 0 where
  pub outcome : Outcome
  pub status : ℕ
  pub err : Option Error
  pub path : String
  pub committed : Bool
  pub client_gone : Bool
  pub issued : Bool
  pub rows : List String

-- `store.RequestRecord`: the fields that the loop writes, `attempts` by the error of each row.
pub record RequestRecord : Type 0 where
  pub skips : List String
  pub attempts : List String
  pub status : String
  pub error_code : String

-- `health.Breaker` as the loop uses it.
pub record Fleet (W : Type 0) : Type 0 where
  pub available : W → Key → W × Bool
  pub mark_used : W → CredKey → ℕ → W

-- `attempt` takes the candidate, `Seq` and `allowForward`.
pub record Env (W : Type 0) : Type 0 where
  pub now : W → W × ℕ
  pub adapter_for : String → Bool
  pub fleet : Option (Fleet W)
  pub attempt : W → Candidate → ℕ → Bool → W × AttemptResult
  pub shut_down : W → Bool

-- The variables of the loop; `answer` is the error written to the client.
pub record Loop (W : Type 0) : Type 0 where
  pub world : W
  pub rec : RequestRecord
  pub index : ℕ
  pub attempts : ℕ
  pub last_err : Option Error

-- How a turn of the loop ends: `return` with what `WriteError` sent, if anything.
pub data Turn (W : Type 0) : Type 0 where
  go_on : Loop W → Turn W
  break_out : Loop W → Turn W
  return_from : W → RequestRecord → Option Error → Turn W

abbrev pub path_passthrough : String
path_passthrough = "passthrough"

unfoldable pub out_of_time : Option Error → Error
out_of_time none = record {
  error_type = "darkrouter";
  message = "attempts exhausted by deadline";
  code = "";
}
out_of_time (some e) = record e { message = e.message +++ " (attempts exhausted by deadline)" }

abbrev pub shutdown_error : Error
shutdown_error = record {
  error_type = "darkrouter";
  message = "gateway is shutting down";
  code = "";
}

-- rec.Attempts[n-1].Error = message, when there is a row.
unfoldable pub set_last : List String → String → List String
set_last [] message = []
set_last (x ∷ []) message = message ∷ []
set_last (x ∷ y ∷ xs) message = x ∷ set_last (y ∷ xs) message

unfoldable pub or_else : Option Error → Option Error → Option Error
or_else (some e) last = some e
or_else none last = last
