-- ===== src/Exec/Attempt/Unsent.antt =====
-- What an attempt tells the breaker when it sent nothing.
use darkrouter.Base.{
  String, Bool, true, false, ◌&&◌, [], ◌∷◌, ◌++◌, ◌≡◌, refl, ap, ◌∙◌, arith, if_holds,
}
use darkrouter.Adapter.{Outcome, client_cancelled, is_success, is_fatal}
use darkrouter.Exec.Attempt.{AttemptCtx, record_attempt, key_of, signal_of, record_health}
use darkrouter.Exec.Attempt.Reports.{record_health_fresh}
use darkrouter.Exec.Attempt.Run.{
  Surfaces, failed_late, after_answer, send, try_send, deferred_outcome, attempt,
}
use darkrouter.Exec.Attempt.Send.{Exchange, Prepared, refused, ready, prepare, sent_outcome}
use darkrouter.Exec.Attempts.{AttemptResult}
use darkrouter.Health.Types.{key_Eq}
use darkrouter.Exec.Attempt.Outcomes.{Refusal, prepare-Refusal}

abbrev Issued : AttemptCtx × AttemptResult → Type 0
Issued p = p.1.issued ≡ true

abbrev SaysNothing : AttemptCtx → AttemptCtx → Type 0
SaysNothing ac after =
    (o : Outcome) × (after.signals ≡ (key_of ac.cand, signal_of o ac.resp) ∷ [])
    × (is_success o ≡ false)
    × (is_fatal o ≡ false)

abbrev leave : AttemptCtx × AttemptResult → AttemptCtx
leave p = record_health p.0 (deferred_outcome p.1) p.0.resp

told_fresh :
    (ac : AttemptCtx) (o : Outcome)
    → ac.health_done ≡ false
    → ac.signals ≡ []
    → (record_health ac o ac.resp).signals ≡ (key_of ac.cand, signal_of o ac.resp) ∷ []
told_fresh ac o d e =
    ap (λ (t : AttemptCtx). t.signals) (record_health_fresh ac o ac.resp d)
    ∙ ap (λ l. l ++ ((key_of ac.cand, signal_of o ac.resp) ∷ [])) e

send-issued :
    (ex : Exchange) (surfaces : Surfaces) (ac : AttemptCtx) (path : String) (streaming : Bool)
    → (send ex surfaces ac path streaming).1.issued ≡ true
unfolding send after_answer failed_late
send-issued ex surfaces ac path streaming =
    if_holds Issued (is_success (sent_outcome ex)) _ _
      (λ t. if_holds Issued _ _ _ (λ l. refl) (λ l. refl)) (λ t. refl)

unsent :
    (ex : Exchange) (surfaces : Surfaces) (ac : AttemptCtx) (p : Prepared)
    → Refusal p
    → ac.health_done ≡ false
    → ac.signals ≡ []
    → (try_send ex surfaces ac p).1.issued ≡ false
    → SaysNothing ac (leave (try_send ex surfaces ac p))
unfolding try_send deferred_outcome
unsent ex surfaces ac (ready path streaming) r d e h =
    absurd (cc (h, send-issued ex surfaces ac path streaming))
unsent ex surfaces ac (refused o err msg ie path) r d e h =
    let done : AttemptCtx = record ac { rec = record_attempt ac.rec ac.cand o 0 _ path } in
    if_holds (λ o'. SaysNothing ac (record_health done o' ac.resp)) (is_fatal o && true)
      client_cancelled o (λ t. (client_cancelled, told_fresh done client_cancelled d e, refl, refl))
      (λ t. (o, told_fresh done o d e, r.1, ground (arith, t)))

-- An attempt that sent nothing never tells the breaker that the provider answered, also where the
-- request could not be rendered: what it tells is neither a success nor fatal, the two outcomes
-- that clear a cooling triple.
pub unsent_says_nothing :
    (ex : Exchange) (surfaces : Surfaces) (ac : AttemptCtx) (allow : Bool)
    → ac.health_done ≡ false
    → ac.signals ≡ []
    → (attempt ex surfaces ac allow).1.issued ≡ false
    → (o : Outcome) × ((attempt ex surfaces ac allow).0.signals
        ≡ (key_of ac.cand, signal_of o ac.resp) ∷ [])
      × (is_success o ≡ false)
      × (is_fatal o ≡ false)
unfolding attempt
unsent_says_nothing ex surfaces ac allow d e h =
    unsent ex surfaces ac (prepare ex allow) (prepare-Refusal ex allow) d e h
