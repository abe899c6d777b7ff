-- ===== src/Exec/Attempt/Failures.antt =====
-- internal/exec/exec.go, internal/exec/surface.go and internal/adapter/classify.go: how a failure
-- becomes an outcome, a status and the error for the client.
use darkrouter.Base.{
  ℕ, String, Bool, false, ◌&&◌, ◌||◌, Option, none, some, leb, ltb, ◌==◌, str_eq, if◌then◌else◌,
}
use darkrouter.Adapter.{
  Outcome, success, retryable_provider, retryable_credential, retryable_model, fatal,
  client_cancelled, is_retryable_provider,
}
use darkrouter.Exec.Attempt.{AttemptCtx, Response, on_last, demote_last_attempt, record_health}
use darkrouter.Ir.{Error}

-- A Go `error`: its text, the `*ir.Error` that `errors.As` finds in it, and whether it is
-- `errClientWrite`.
pub record Failure : Type 0 where
  pub message : String
  pub typed : Option Error
  pub client_write : Bool

-- What the two contexts of an attempt say when they are asked: the cause of the attempt's own is
-- the timeout; the client's is ended, is cancelled.
pub record Contexts : Type 0 where
  pub timed_out : Bool
  pub ended : Bool
  pub cancelled : Bool

unfoldable pub status_class : ℕ → Outcome
status_class code =
    if leb 200 code && ltb code 300
    then success
    else if code == 401 || code == 402 || code == 403
    then retryable_credential
    else if code == 404
    then retryable_model
    else if code == 408 || code == 429
    then retryable_provider
    else if leb 300 code && ltb code 400
    then retryable_provider
    else if leb 500 code
    then retryable_provider
    else fatal

unfoldable pub classify_status : Option Response → Option Failure → Outcome
unfolding status_class
classify_status none err = retryable_provider
classify_status (some r) (some e) = retryable_provider
classify_status (some r) none = status_class r.status_code

-- `ad` is the adapter's `Classify`.
unfoldable pub classify :
    (Option Response → Option Failure → Outcome)
    → Contexts
    → Option Response
    → Option Failure
    → Outcome
classify ad ctx resp none = ad resp none
classify ad ctx resp (some e) =
    if ctx.timed_out
    then retryable_provider
    else if ctx.cancelled
    then client_cancelled
    else ad resp (some e)

-- `none` is the empty outcome.
unfoldable pub stopped_waiting : Contexts → Option Outcome
stopped_waiting ctx =
    if ctx.timed_out
    then some retryable_provider
    else if ctx.ended
    then some client_cancelled
    else none

unfoldable pub type_outcome : String → Outcome
type_outcome t =
    if str_eq t "content_filter"
      || str_eq t "invalid_request"
      || str_eq t "payload_too_large"
      || str_eq t "unsupported_media"
    then fatal
    else if str_eq t "authentication" || str_eq t "permission"
    then retryable_credential
    else if str_eq t "not_found"
    then retryable_model
    else retryable_provider

unfoldable pub outcome_for_parse_error : Option Error → Outcome
unfolding type_outcome
outcome_for_parse_error none = retryable_provider
outcome_for_parse_error (some e) = type_outcome e.error_type

unfoldable pub status_for_parse_error : Option Error → ℕ
status_for_parse_error none = 0
status_for_parse_error (some e) = if str_eq e.error_type "rate_limit" then 429 else 0

unfoldable pub with_status : Option Response → ℕ → Option Response
with_status none status = none
with_status (some r) status =
    if status == 0 then some r else some (record r { status_code = status })

unfoldable pub message_of : Option Failure → String
message_of none = "upstream request failed"
message_of (some e) = e.message

unfoldable pub error_of : Outcome → String → Error
error_of retryable_credential msg = record {
  error_type = "authentication";
  message = "upstream rejected the credential";
  code = "";
}
error_of retryable_model msg = record {
  error_type = "not_found";
  message = "upstream does not serve this model";
  code = "";
}
error_of fatal msg = record { error_type = "invalid_request"; message = msg; code = "" }
error_of client_cancelled msg = record {
  error_type = "darkrouter";
  message = "client cancelled the request";
  code = "";
}
error_of _ msg = record { error_type = "api_error"; message = msg; code = "" }

unfoldable pub error_for : Outcome → Option Failure → Error
unfolding message_of error_of
error_for o err = error_of o (message_of err)

unfoldable pub read_outcome : Contexts → Failure → Outcome
unfolding outcome_for_parse_error
read_outcome ctx err =
    if err.client_write
    then client_cancelled
    else if ctx.timed_out
    then retryable_provider
    else if ctx.cancelled
    then client_cancelled
    else outcome_for_parse_error err.typed

unfoldable pub record_failure : AttemptCtx → Outcome → Option Response → Option Error → AttemptCtx
unfolding status_for_parse_error with_status record_health
record_failure ac o resp err =
    record_health ac o
      (if is_retryable_provider o then with_status resp (status_for_parse_error err) else resp)

abbrev pub or_api_error : Failure → Error
or_api_error err = elim err.typed [
  | none ↦ record { error_type = "api_error"; message = err.message; code = "" }
  | some e ↦ e
]

unfoldable pub failed_after_commit : Contexts → Failure → Outcome × Error
unfolding read_outcome
failed_after_commit ctx err = (read_outcome ctx err, or_api_error err)

-- rec.Attempts[n-1].Error = err
unfoldable pub name_error : AttemptCtx → String → AttemptCtx
unfolding on_last
name_error ac message = record ac {
  rec = record ac.rec { attempts = on_last (λ r. record r { error = message }) ac.rec.attempts };
}

unfoldable pub demoted : AttemptCtx → Outcome → Bool → AttemptCtx
unfolding demote_last_attempt
demoted ac o committed = record ac { rec = demote_last_attempt ac.rec o committed }

abbrev pub error_to_serve : Outcome → Failure → Error
error_to_serve client_cancelled err = error_for client_cancelled (some err)
error_to_serve _ err = or_api_error err

unfoldable pub reclassify_stream : AttemptCtx → Contexts → Failure → AttemptCtx × Outcome × Error
unfolding read_outcome record_failure demoted name_error
reclassify_stream ac ctx err =
    let o = read_outcome ctx err in
    (
      name_error (demoted (record_failure ac o ac.resp err.typed) o false) err.message,
      o,
      error_to_serve o err,
    )
