-- ===== src/Exec/Attempt/Stream/Surface.antt =====
-- `attemptStream` as the loop uses it: it reports by the methods of the context alone.
use darkrouter.Base.{
  ℕ, String, ◌||◌, List, [], ◌∷◌, ◌++◌, Option, none, some, str_eq, if◌then◌else◌, if_holds,
  option_holds, cases_hold,
}
use darkrouter.Adapter.{IsKnown, fatal, retryable_credential, retryable_model, retryable_provider}
use darkrouter.Exec.Attempt.{AttemptCtx}
use darkrouter.Exec.Attempt.Failures.{
  Failure, Contexts, type_outcome, outcome_for_parse_error, read_outcome,
}
use darkrouter.Exec.Attempt.Reports.{
  Answer, Surface, Reports, nothing, usage, failure, demotion, named,
}
use darkrouter.Exec.Attempt.Stream.{
  Pulled, event, failed, Client, Drained, lost, held, used, drain, Handed, hand_rest,
  hand_committed, hand_held, written, late_answer, answer_of, lost_answer, after_drain,
  attempt_stream,
}
use darkrouter.Exec.Commit.Buffer.{Buffer, new_buffer, is_content_bearing, add}
use darkrouter.Ir.{Error, StreamEvent}

type_outcome-IsKnown : (t : String) → IsKnown (type_outcome t)
unfolding type_outcome
type_outcome-IsKnown t =
    let bad =
      str_eq t "content_filter"
      || str_eq t "invalid_request"
      || str_eq t "payload_too_large"
      || str_eq t "unsupported_media" in
    let missing = if str_eq t "not_found" then retryable_model else retryable_provider in
    let other_way =
      if str_eq t "authentication" || str_eq t "permission"
      then retryable_credential
      else missing in
    if_holds IsKnown bad fatal other_way (λ h. tt)
      (λ h.
        if_holds IsKnown (str_eq t "authentication" || str_eq t "permission") retryable_credential
          missing (λ k. tt)
          (λ k.
            if_holds IsKnown (str_eq t "not_found") retryable_model retryable_provider (λ m. tt)
              (λ m. tt)))

outcome_for_parse_error-IsKnown : (e : Option Error) → IsKnown (outcome_for_parse_error e)
unfolding outcome_for_parse_error
outcome_for_parse_error-IsKnown none = tt
outcome_for_parse_error-IsKnown (some e) = type_outcome-IsKnown e.error_type

pub read_outcome-IsKnown : (ctx : Contexts) (e : Failure) → IsKnown (read_outcome ctx e)
unfolding read_outcome
read_outcome-IsKnown ctx e =
    if_holds IsKnown e.client_write _ _ (λ h. tt)
      (λ h.
        if_holds IsKnown ctx.timed_out _ _ (λ k. tt)
          (λ k.
            if_holds IsKnown ctx.cancelled _ _ (λ m. tt)
              (λ m. outcome_for_parse_error-IsKnown e.typed)))

abbrev DrainReports : AttemptCtx → Drained → Type 0
DrainReports s (lost t ctx e) = Reports s t
DrainReports s (held t evs c rest) = Reports s t

Reports-used : {s t : AttemptCtx} → Reports s t → (ev : StreamEvent) → Reports s (used t ev)
unfolding used
Reports-used r ev = usage r ev.usage

drain-Reports :
    (s : AttemptCtx) (ctx : Contexts) (buf : Buffer) (ac : AttemptCtx) (pulls : List Pulled)
    → Reports s ac
    → DrainReports s (drain ctx buf ac pulls)
unfolding drain
drain-Reports s ctx buf ac [] r = r
drain-Reports s ctx buf ac (failed c e ∷ rest) r = r
drain-Reports s ctx buf ac (event ev ∷ rest) r =
    cases_hold (DrainReports s) (is_content_bearing ev) _ _ (λ t. Reports-used r ev)
      (λ t.
        option_holds (DrainReports s) (add buf ev) _ _ (λ n. Reports-used r ev)
          (λ b e. drain-Reports s ctx b (used ac ev) rest (Reports-used r ev)))

abbrev HandReports : AttemptCtx → Handed → Type 0
HandReports s h = Reports s h.ctx

hand_rest-Reports :
    (s : AttemptCtx) (client : Client) (ac : AttemptCtx) (items rest : List Pulled)
    → Reports s ac
    → HandReports s (hand_rest client ac items rest)
unfolding hand_rest
hand_rest-Reports s client ac items [] r = r
hand_rest-Reports s client ac items (failed c e ∷ rest) r =
    if_holds (HandReports s) (client.alive items) _ _ (λ h. r) (λ h. r)
hand_rest-Reports s client ac items (event ev ∷ rest) r =
    let more = items ++ (event ev ∷ []) in
    if_holds (HandReports s) (client.alive items) _ _
      (λ h.
        if_holds (HandReports s) (client.wants more) _ _
          (λ k. hand_rest-Reports s client (used ac ev) more rest (Reports-used r ev))
          (λ k. Reports-used r ev))
      (λ h. r)

hand_committed-Reports :
    (s : AttemptCtx) (client : Client) (ac : AttemptCtx) (items : List Pulled)
    (c : Option StreamEvent) (rest : List Pulled)
    → Reports s ac
    → HandReports s (hand_committed client ac items c rest)
unfolding hand_committed
hand_committed-Reports s client ac items none rest r = hand_rest-Reports s client ac items rest r
hand_committed-Reports s client ac items (some ev) rest r =
    let more = items ++ (event ev ∷ []) in
    if_holds (HandReports s) (client.wants more) _ _
      (λ k. hand_rest-Reports s client ac more rest r) (λ k. r)

hand_held-Reports :
    (s : AttemptCtx) (client : Client) (ac : AttemptCtx) (items : List Pulled)
    (evs : List StreamEvent) (c : Option StreamEvent) (rest : List Pulled)
    → Reports s ac
    → HandReports s (hand_held client ac items evs c rest)
unfolding hand_held
hand_held-Reports s client ac items [] c rest r = hand_committed-Reports s client ac items c rest r
hand_held-Reports s client ac items (ev ∷ evs) c rest r =
    let more = items ++ (event ev ∷ []) in
    if_holds (HandReports s) (client.wants more) _ _
      (λ k. hand_held-Reports s client ac more evs c rest r) (λ k. r)

abbrev pub Well : AttemptCtx → Answer → Type 0
Well s a = Reports s a.ctx × IsKnown a.outcome

lost_answer-Well :
    (s ac : AttemptCtx) (ctx : Contexts) (e : Failure)
    → Reports s ac
    → Well s (lost_answer ac ctx e)
unfolding lost_answer
lost_answer-Well s ac ctx e r =
    let o = read_outcome ctx e in
    let k = read_outcome-IsKnown ctx e in
    (named (demotion (failure r o ac.resp e.typed k) o) e.message, k)

late_answer-Well :
    (s : AttemptCtx) (client : Client) (h : Handed) (f : Contexts × Failure)
    → HandReports s h
    → Well s (late_answer client h f)
unfolding late_answer
late_answer-Well s client h (ctx, e) r = (r, read_outcome-IsKnown ctx e)

answer_of-Well :
    (s : AttemptCtx) (client : Client) (h : Handed) → HandReports s h → Well s (answer_of client h)
unfolding answer_of
answer_of-Well s client h r =
    option_holds (Well s) h.failure _ _
      (λ n.
        if_holds (Well s) (client.alive h.items) _ _ (λ a. (r, tt))
          (λ a. late_answer-Well s client h (client.write_ctx, written client) r))
      (λ f e. late_answer-Well s client h f r)

after_drain-Well :
    (s : AttemptCtx) (client : Client) (d : Drained)
    → DrainReports s d
    → Well s (after_drain client d).0
unfolding after_drain
after_drain-Well s client (lost ac ctx e) r = lost_answer-Well s ac ctx e r
after_drain-Well s client (held ac evs c rest) r =
    answer_of-Well s client _ (hand_held-Reports s client ac [] evs c rest r)

pub attempt_stream-Well :
    (client : Client) (max : ℕ) (ctx : Contexts) (pulls : List Pulled) (ac : AttemptCtx)
    → Well ac (attempt_stream client max ctx pulls ac).0
unfolding attempt_stream
attempt_stream-Well client max ctx pulls ac =
    after_drain-Well ac client _ (drain-Reports ac ctx (new_buffer max) ac pulls nothing)

-- `chatOp.Respond` for a streaming request.
unfoldable pub stream_surface : Client → ℕ → Contexts → List Pulled → Surface
unfolding attempt_stream
stream_surface client max ctx pulls = record {
  respond = λ ac. (attempt_stream client max ctx pulls ac).0;
  respond-Reports = λ ac. (attempt_stream-Well client max ctx pulls ac).0;
  respond-IsKnown = λ ac. (attempt_stream-Well client max ctx pulls ac).1;
}
