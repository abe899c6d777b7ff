-- ===== src/Exec/Attempt/Late.antt =====
-- What an attempt tells the breaker of a failure after commit.
use darkrouter.Base.{
  ℕ, String, Bool, true, false, not, ◌&&◌, [], ◌∷◌, ◌++◌, Option, none, some, ◌≡◌, refl, ap, ◌∙◌,
  sym, subst, arith, if◌then◌else◌, if_holds,
}
use darkrouter.Adapter.{Outcome, success, is_success}
use darkrouter.Exec.Attempt.{Response, AttemptCtx, key_of, signal_of, record_health}
use darkrouter.Exec.Attempt.Failures.{demoted, record_failure}
use darkrouter.Exec.Attempt.Reports.{Answer, Reports-Same, record_health_fresh, record_health_done}
use darkrouter.Exec.Attempt.Run.{
  Surfaces, surface_for, fail_row, cut_short, client_gone, status_of, sent_context, failed_late,
  after_answer, send, try_send, deferred_outcome, attempt,
}
use darkrouter.Exec.Attempt.Send.{Exchange, ready, prepare, sent_outcome}
use darkrouter.Exec.Attempts.{AttemptResult, shutdown_error}
use darkrouter.Health.Types.{Key, key_Eq, Signal}
use darkrouter.Ir.{Error}
use darkrouter.Router.Types.{Candidate}
use darkrouter.Exec.Attempt.Failures.{with_status, status_for_parse_error}
use darkrouter.Adapter.{is_retryable_provider}

-- The response that a failure read from the body stands for.
abbrev pub standing_for : Outcome → Option Response → Option Error → Option Response
standing_for o resp err =
    if is_retryable_provider o then with_status resp (status_for_parse_error err) else resp

abbrev TellsOnce : Signal → Key → AttemptCtx → Type 0
TellsOnce s k t = (t.health_done ≡ true) × (t.signals ≡ (k, s) ∷ [])

record_failure-TellsOnce :
    (ac : AttemptCtx) (o : Outcome) (resp : Option Response) (err : Option Error)
    → ac.health_done ≡ false
    → ac.signals ≡ []
    → TellsOnce
        (signal_of o (standing_for o resp err))
        (key_of ac.cand)
        (record_failure ac o resp err)
unfolding record_failure
record_failure-TellsOnce ac o resp err d e =
    subst (TellsOnce (signal_of o (standing_for o resp err)) (key_of ac.cand))
      (sym (record_health_fresh ac o (standing_for o resp err) d))
      (refl, ap (λ l. l ++ ((key_of ac.cand, signal_of o (standing_for o resp err)) ∷ [])) e)

fail_row-TellsOnce :
    (s : Signal) (k : Key) (ac : AttemptCtx) (err : Option Error)
    → TellsOnce s k ac
    → TellsOnce s k (fail_row ac err)
unfolding fail_row
fail_row-TellsOnce s k ac none h = h
fail_row-TellsOnce s k ac (some e) h = h

failed_late-TellsOnce :
    (ex : Exchange) (a : Answer) (ac : AttemptCtx) (path : String) (status : ℕ)
    → ac.health_done ≡ false
    → ac.signals ≡ []
    → TellsOnce
        (signal_of a.outcome (standing_for a.outcome ex.resp a.err))
        (key_of ac.cand)
        (failed_late ex a ac path status).0
unfolding failed_late
failed_late-TellsOnce ex a ac path status d e =
    let s = signal_of a.outcome (standing_for a.outcome ex.resp a.err) in
    let told = record_failure-TellsOnce ac a.outcome ex.resp a.err d e in
    if_holds (TellsOnce s (key_of ac.cand)) (client_gone ex a) _ _ (λ g. told)
      (λ g.
        fail_row-TellsOnce s (key_of ac.cand) (record_failure ac a.outcome ex.resp a.err)
          (if cut_short ex a then some shutdown_error else a.err) told)

-- The end of an attempt whose surface has committed and failed.
abbrev FailedLate : Signal → Key → AttemptCtx × AttemptResult → Type 0
FailedLate s k p = TellsOnce s k p.0 × (p.1.outcome ≡ success) × (p.1.committed ≡ true)

after_answer-FailedLate :
    (ex : Exchange) (a : Answer) (path : String) (status : ℕ)
    → a.committed ≡ true
    → is_success a.outcome ≡ false
    → a.ctx.health_done ≡ false
    → a.ctx.signals ≡ []
    → FailedLate
        (signal_of a.outcome (standing_for a.outcome ex.resp a.err))
        (key_of a.ctx.cand)
        (after_answer ex a path status)
unfolding after_answer demoted failed_late
after_answer-FailedLate ex a path status c f d e =
    let s = signal_of a.outcome (standing_for a.outcome ex.resp a.err) in
    if_holds (FailedLate s (key_of a.ctx.cand)) (a.committed && not (is_success a.outcome)) _ _
      (λ t. (
        failed_late-TellsOnce ex a (demoted a.ctx a.outcome a.committed) path status d e,
        refl,
        refl,
      ))
      (λ t. absurd (ground (arith, t, c, f)))

-- What the loop sees of it.
abbrev Seen : Signal → Key → AttemptCtx × AttemptResult → Type 0
Seen s k p =
    (p.1.outcome ≡ success)
    × (p.1.committed ≡ true)
    × ((record_health p.0 (deferred_outcome p.1) p.0.resp).signals ≡ (k, s) ∷ [])

FailedLate-Seen :
    (s : Signal) (k : Key) (p : AttemptCtx × AttemptResult) → FailedLate s k p → Seen s k p
FailedLate-Seen s k p (told, o, c) = (
  o,
  c,
  ap (λ (t : AttemptCtx). t.signals) (record_health_done p.0 (deferred_outcome p.1) p.0.resp told.0)
      ∙ told.1,
)

-- A response that fails after its first byte went out ends the chain as a success, for nothing
-- can be sent in its place; but the breaker hears the failure itself, with the status that a typed
-- error in the body stands for, and hears nothing else.
pub late_failure_told :
    (ex : Exchange) (surfaces : Surfaces) (ac : AttemptCtx) (allow : Bool) (path : String)
    (streaming : Bool) (a : Answer)
    → prepare ex allow ≡ ready path streaming
    → is_success (sent_outcome ex) ≡ true
    → (surface_for surfaces path streaming).respond (sent_context ex ac path) ≡ a
    → a.committed ≡ true
    → is_success a.outcome ≡ false
    → a.ctx.health_done ≡ false
    → a.ctx.signals ≡ []
    → ((attempt ex surfaces ac allow).1.outcome ≡ success)
      × ((attempt ex surfaces ac allow).1.committed ≡ true)
      × ((attempt ex surfaces ac allow).0.signals
          ≡ (key_of ac.cand, signal_of a.outcome (standing_for a.outcome ex.resp a.err)) ∷ [])
unfolding attempt try_send send sent_context
late_failure_told ex surfaces ac allow path streaming a p sent answered c f d e =
    let s = signal_of a.outcome (standing_for a.outcome ex.resp a.err) in
    let surface = surface_for surfaces path streaming in
    let same = Reports-Same (surface.respond-Reports (sent_context ex ac path)) in
    let cand = ap (λ (x : Answer). x.ctx.cand) (sym answered) ∙ same.0 in
    let late = after_answer-FailedLate ex a path (status_of ex.resp) c f d e in
    let late2 =
      subst
        (λ (x : Candidate). FailedLate s (key_of x) (after_answer ex a path (status_of ex.resp)))
        cand late in
    let late3 =
      subst (λ x. FailedLate s (key_of ac.cand) (after_answer ex x path (status_of ex.resp)))
        (sym answered) late2 in
    subst (λ q. Seen s (key_of ac.cand) (try_send ex surfaces ac q)) (sym p)
      (FailedLate-Seen s (key_of ac.cand) (send ex surfaces ac path streaming) (
        if_holds (FailedLate s (key_of ac.cand)) (is_success (sent_outcome ex)) _ _ (λ t. late3)
          (λ t. absurd (cc (t, sent)))))
