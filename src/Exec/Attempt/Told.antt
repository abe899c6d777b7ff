-- ===== src/Exec/Attempt/Told.antt =====
-- What an attempt tells the breaker, on every way out.
use darkrouter.Base.{
  ℕ, suc, String, Bool, false, not, ◌&&◌, List, [], ◌∷◌, Option, none, some, length, ◌≡◌, refl, ap,
  ◌∙◌, arith, inl, inr, length-append, if◌then◌else◌, if_holds,
}
use darkrouter.Adapter.{Outcome, IsKnown, is_success, is_fatal}
use darkrouter.Exec.Attempt.{RequestRecord, AttemptCtx, record_attempt, key_of, demote_last_attempt}
use darkrouter.Exec.Attempt.Failures.{demoted, record_failure}
use darkrouter.Exec.Attempt.Reports.{
  Answer, Told, record_health-Signalled, Reports-Same, Reports-Told, length-demote_last_attempt,
  length-on_last, record_health-Same,
}
use darkrouter.Exec.Attempt.Run.{
  Surfaces, surface_for, fail_row, cut_short, client_gone, status_of, sent_context, failed_late,
  after_answer, send, try_send, deferred_outcome, attempt,
}
use darkrouter.Exec.Attempt.Send.{Exchange, Prepared, refused, ready, prepare, sent_outcome}
use darkrouter.Exec.Attempts.{AttemptResult, shutdown_error}
use darkrouter.Health.Types.{Key, key_Eq, Signal, Breaker}
use darkrouter.Health.Breaker.{record_signal}
use darkrouter.Ir.{Error}
use darkrouter.Router.Types.{Candidate}
use darkrouter.Exec.Attempt.Outcomes.{Refusal, prepare-Refusal, Classifies, sent_outcome-IsKnown}

-- An attempt on its way out: told at most once, still about its candidate, one row more.
abbrev Leaving : AttemptCtx → AttemptCtx × AttemptResult → Type 0
Leaving ac p =
    Told p.0
    × (p.0.cand ≡ ac.cand)
    × IsKnown p.1.outcome
    × (length p.0.rec.attempts ≡ suc (length ac.rec.attempts))

length-record_attempt :
    (rec : RequestRecord) (c : Candidate) (o : Outcome) (status : ℕ) (error path : String)
    → length (record_attempt rec c o status error path).attempts ≡ suc (length rec.attempts)
unfolding record_attempt
length-record_attempt rec c o status error path = omega (arith, length-append {0} rec.attempts)

fail_row-keeps :
    (ac : AttemptCtx) (err : Option Error)
    → Told ac
    → Told (fail_row ac err)
      × ((fail_row ac err).cand ≡ ac.cand)
      × (length (fail_row ac err).rec.attempts ≡ length ac.rec.attempts)
unfolding fail_row
fail_row-keeps ac none h = (h, refl, refl)
fail_row-keeps ac (some e) h = (h, refl, length-on_last _ ac.rec.attempts)

-- The part of it that is about the context.
abbrev Held : AttemptCtx → AttemptCtx → Type 0
Held before t =
    Told t × (t.cand ≡ before.cand) × (length t.rec.attempts ≡ suc (length before.rec.attempts))

failed_late-Leaving :
    (ex : Exchange) (a : Answer) (ac before : AttemptCtx) (path : String) (status : ℕ)
    → IsKnown a.outcome
    → Told ac
    → ac.cand ≡ before.cand
    → length ac.rec.attempts ≡ suc (length before.rec.attempts)
    → Leaving before (failed_late ex a ac path status)
unfolding failed_late record_failure
failed_late-Leaving ex a ac before path status k h c n =
    let t = record_failure ac a.outcome ex.resp a.err in
    let same = record_health-Same ac a.outcome _ in
    let told : Told t = inr (record_health-Signalled ac a.outcome _ k h) in
    let kept = fail_row-keeps t (if cut_short ex a then some shutdown_error else a.err) told in
    let held =
      if_holds (Held before) (client_gone ex a) _ _ (λ g. (told, same.0 ∙ c, same.2 ∙ n))
        (λ g. (kept.0, kept.1 ∙ (same.0 ∙ c), kept.2 ∙ (same.2 ∙ n))) in
    (held.0, held.1, tt, held.2)

after_answer-Leaving :
    (ex : Exchange) (a : Answer) (before : AttemptCtx) (path : String) (status : ℕ)
    → IsKnown a.outcome
    → Told a.ctx
    → a.ctx.cand ≡ before.cand
    → length a.ctx.rec.attempts ≡ suc (length before.rec.attempts)
    → Leaving before (after_answer ex a path status)
unfolding after_answer demoted
after_answer-Leaving ex a before path status k h c n =
    let same : length (demote_last_attempt a.ctx.rec a.outcome a.committed).attempts
        ≡ suc (length before.rec.attempts) =
      length-demote_last_attempt a.ctx.rec a.outcome a.committed ∙ n in
    if_holds (Leaving before) (a.committed && not (is_success a.outcome)) _ _
      (λ t.
        failed_late-Leaving ex a (demoted a.ctx a.outcome a.committed) before path status k h c
          same)
      (λ t. (h, c, k, same))

send-Leaving :
    (ex : Exchange) (surfaces : Surfaces) (ac : AttemptCtx) (path : String) (streaming : Bool)
    → Classifies ex
    → Told ac
    → Leaving ac (send ex surfaces ac path streaming)
unfolding send sent_context
send-Leaving ex surfaces ac path streaming k h =
    let outcome = sent_outcome ex in
    let sent : AttemptCtx = sent_context ex ac path in
    let s = surface_for surfaces path streaming in
    let same = Reports-Same (s.respond-Reports sent) in
    let rows = length-record_attempt ac.rec ac.cand outcome (status_of ex.resp) _ path in
    if_holds (Leaving ac) (is_success outcome) _ _
      (λ t.
        after_answer-Leaving ex (s.respond sent) ac path (status_of ex.resp)
          (s.respond-IsKnown sent) (Reports-Told h (s.respond-Reports sent)) same.0 (same.2 ∙ rows))
      (λ t. (h, refl, sent_outcome-IsKnown ex k, rows))

try_send-Leaving :
    (ex : Exchange) (surfaces : Surfaces) (ac : AttemptCtx) (p : Prepared)
    → Refusal p
    → Classifies ex
    → Told ac
    → Leaving ac (try_send ex surfaces ac p)
unfolding try_send
try_send-Leaving ex surfaces ac (ready path streaming) r k h =
    send-Leaving ex surfaces ac path streaming k h
try_send-Leaving ex surfaces ac (refused o err msg ie path) r k h =
    (h, refl, r.0, length-record_attempt ac.rec ac.cand o 0 _ path)

deferred_outcome-IsKnown :
    (res : AttemptResult) → IsKnown res.outcome → IsKnown (deferred_outcome res)
unfolding deferred_outcome
deferred_outcome-IsKnown res k =
    if_holds IsKnown (is_fatal res.outcome && not res.issued) _ _ (λ t. tt) (λ t. k)

-- Every attempt leaves one row more on the request and tells the breaker exactly one outcome, on
-- every way out: about the candidate that was attempted, and one that the breaker knows. The
-- classifiers of the adapter answer by constants of the package.
pub attempt-signals :
    (ex : Exchange) (surfaces : Surfaces) (ac : AttemptCtx) (allow : Bool)
    → Classifies ex
    → ac.health_done ≡ false
    → ac.signals ≡ []
    → (s : Signal) × ((attempt ex surfaces ac allow).0.signals ≡ (key_of ac.cand, s) ∷ [])
      × IsKnown s.outcome
      × (length (attempt ex surfaces ac allow).0.rec.attempts ≡ suc (length ac.rec.attempts))
unfolding attempt
attempt-signals ex surfaces ac allow k d e =
    let p = try_send ex surfaces ac (prepare ex allow) in
    let (told, same, known, rows) =
      try_send-Leaving ex surfaces ac (prepare ex allow) (prepare-Refusal ex allow) k
        (inl (d, e)) in
    let (s, _, l, q) =
      record_health-Signalled p.0 (deferred_outcome p.1) p.0.resp
        (deferred_outcome-IsKnown p.1 known) told in
    let here = record_health-Same p.0 (deferred_outcome p.1) p.0.resp in
    (s, l ∙ ap (λ (c : Candidate). (key_of c, s) ∷ []) (here.0 ∙ same), q, here.2 ∙ rows)

-- `Breaker.Record` on each signal.
unfoldable pub record_all : Breaker → List (Key × Signal) → ℕ → Breaker
record_all b [] now = b
record_all b ((k, s) ∷ signals) now = record_all (record_signal b k s now) signals now
