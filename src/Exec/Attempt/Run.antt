-- ===== src/Exec/Attempt/Run.antt =====
-- internal/exec/exec.go, `attempt` from the send on, and as a whole.
use darkrouter.Base.{
  ℕ, String, Bool, true, false, not, ◌&&◌, [], Option, none, some, ◌==◌, str_eq, map, drop, length,
  if◌then◌else◌,
}
use darkrouter.Adapter.{
  Outcome, client_cancelled, success, is_success, is_fatal, is_retryable_provider,
  is_client_cancelled,
}
use darkrouter.Exec.Attempt.{Response, AttemptCtx, on_last, record_attempt, record_health}
use darkrouter.Exec.Attempt.Failures.{
  Failure, status_for_parse_error, error_for, record_failure, demoted,
}
use darkrouter.Exec.Attempt.Reports.{Answer, Surface}
use darkrouter.Exec.Attempt.Send.{
  Exchange, Prepared, refused, ready, prepare, sent_outcome, send_error,
}
use darkrouter.Exec.Attempts.{AttemptResult, path_passthrough, shutdown_error}
use darkrouter.Ir.{Error}
use Prim.Native.String.{◌++◌ as ◌+++◌}

-- The ways to read a 2xx body: `forwardStream`, `forwardUnary` and the surface's `Respond`.
pub record Surfaces : Type 0 where
  pub forward_stream : Surface
  pub forward_unary : Surface
  pub respond : Surface

unfoldable pub surface_for : Surfaces → String → Bool → Surface
surface_for s path streaming =
    if str_eq path path_passthrough
    then (if streaming then s.forward_stream else s.forward_unary)
    else s.respond

unfoldable pub status_of : Option Response → ℕ
status_of none = 0
status_of (some r) = r.status_code

abbrev pub text_of : Option Failure → String
text_of none = ""
text_of (some e) = e.message

-- The request row of a failure after commit that is not the client's.
unfoldable pub fail_row : AttemptCtx → Option Error → AttemptCtx
unfolding on_last
fail_row ac none = record ac { rec = record ac.rec { error_code = "api_error" } }
fail_row ac (some e) = record ac {
  rec = record ac.rec {
    error_code = if str_eq e.error_type "" then "api_error" else e.error_type;
    attempts = on_last (λ r. record r { error = e.message }) ac.rec.attempts;
  };
}

-- A failure after commit: whether the client is gone, and the error kept.
unfoldable pub cut_short : Exchange → Answer → Bool
cut_short ex a = is_client_cancelled a.outcome && (not a.write_failed && ex.shut_down)

unfoldable pub client_gone : Exchange → Answer → Bool
unfolding cut_short
client_gone ex a = is_client_cancelled a.outcome && not (cut_short ex a)

unfoldable pub failed_late :
    Exchange → Answer → AttemptCtx → String → ℕ → AttemptCtx × AttemptResult
unfolding cut_short client_gone record_failure fail_row
failed_late ex a ac path status =
    let told = record_failure ac a.outcome ex.resp a.err in
    let kept = if cut_short ex a then some shutdown_error else a.err in
    (
      if client_gone ex a then told else fail_row told kept,
      record {
        outcome = success;
        status = status;
        err = none;
        path = path;
        committed = true;
        client_gone = client_gone ex a;
        issued = true;
        rows = [];
      },
    )

-- An in-body rate limit counts as a 429.
unfoldable pub body_status : Outcome → Option Error → ℕ → ℕ
unfolding status_for_parse_error
body_status o err status =
    if is_retryable_provider o && not (status_for_parse_error err == 0)
    then status_for_parse_error err
    else status

-- What the loop makes of the surface's answer.
unfoldable pub after_answer : Exchange → Answer → String → ℕ → AttemptCtx × AttemptResult
unfolding demoted failed_late body_status
after_answer ex a path status =
    let ac = demoted a.ctx a.outcome a.committed in
    if a.committed && not (is_success a.outcome) then failed_late ex a ac path status else (
      ac,
      record {
        outcome = a.outcome;
        status = body_status a.outcome a.err status;
        err = a.err;
        path = path;
        committed = a.committed;
        client_gone = false;
        issued = true;
        rows = [];
      },
    )

-- The context with the row of the send, which the surface is given.
unfoldable pub sent_context : Exchange → AttemptCtx → String → AttemptCtx
unfolding sent_outcome send_error status_of record_attempt
sent_context ex ac path = record ac {
  resp = ex.resp;
  rec =
      record_attempt ac.rec ac.cand (sent_outcome ex) (status_of ex.resp) (text_of (send_error ex))
        path;
}

unfoldable pub send : Exchange → Surfaces → AttemptCtx → String → Bool → AttemptCtx × AttemptResult
unfolding sent_context surface_for after_answer error_for
send ex surfaces ac path streaming =
    let outcome = sent_outcome ex in
    let status = status_of ex.resp in
    let sent = sent_context ex ac path in
    if is_success outcome
    then after_answer ex ((surface_for surfaces path streaming).respond sent) path status
    else (
      sent,
      record {
        outcome = outcome;
        status = status;
        err = some (error_for outcome (send_error ex));
        path = path;
        committed = false;
        client_gone = false;
        issued = true;
        rows = [];
      },
    )

unfoldable pub try_send : Exchange → Surfaces → AttemptCtx → Prepared → AttemptCtx × AttemptResult
unfolding record_attempt send
try_send ex surfaces ac (ready path streaming) = send ex surfaces ac path streaming
try_send ex surfaces ac (refused o err msg ie path) = (
  record ac { rec = record_attempt ac.rec ac.cand o 0 (msg +++ (": " +++ err.message)) path },
  record {
    outcome = o;
    status = 0;
    err = some ie;
    path = path;
    committed = false;
    client_gone = false;
    issued = false;
    rows = [];
  },
)

-- The outcome of the deferred breaker signal.
unfoldable pub deferred_outcome : AttemptResult → Outcome
deferred_outcome res =
    if is_fatal res.outcome && not res.issued then client_cancelled else res.outcome

-- `attempt`, with the errors of the rows that it added in the result.
unfoldable pub attempt : Exchange → Surfaces → AttemptCtx → Bool → AttemptCtx × AttemptResult
unfolding prepare try_send deferred_outcome record_health
attempt ex surfaces ac allow_forward =
    let (done, res) = try_send ex surfaces ac (prepare ex allow_forward) in
    (
      record_health done (deferred_outcome res) done.resp,
      record res { rows = map (λ r. r.error) (drop (length ac.rec.attempts) done.rec.attempts) },
    )
