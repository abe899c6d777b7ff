-- ===== src/Exec/Attempt/Outcomes.antt =====
-- The outcomes that an attempt can have: of a refusal before the send, and of the send.
use darkrouter.Base.{
  String, Bool, true, false, ◌&&◌, Option, none, some, ◌≡◌, refl, subst, ◌==◌, str_eq, if_holds,
  option_holds,
}
use darkrouter.Adapter.{Outcome, IsKnown, is_success, is_fatal}
use darkrouter.Exec.Attempt.{Response}
use darkrouter.Exec.Attempt.Failures.{Failure, Contexts, classify, stopped_waiting}
use darkrouter.Exec.Attempt.Send.{
  Exchange, Forwarding, not_forwarded, rewrite_refused, build_failed, built, Prepared, refused,
  ready, fail_render, prepare_ir, prepare_body, authorize, prepare_send, prepare, refine_body,
  body_error, sent_outcome,
}
use darkrouter.Exec.Attempts.{path_passthrough}

-- The refusals never claim an answer of the provider's.
abbrev pub Unanswered : Outcome → Type 0
Unanswered o = IsKnown o × (is_success o ≡ false)

abbrev pub Refusal : Prepared → Type 0
Refusal (ready path streaming) = Unit {0}
Refusal (refused o err msg ie path) = Unanswered o

fail_render-Refusal : (err : Failure) → Refusal (fail_render err)
unfolding fail_render
fail_render-Refusal err =
    option_holds Refusal err.typed _ _ (λ e. (tt, refl))
      (λ ie e. if_holds Refusal (str_eq ie.error_type "") _ _ (λ h. (tt, refl)) (λ h. (tt, refl)))

prepare_ir-Refusal : (ex : Exchange) → Refusal (prepare_ir ex)
unfolding prepare_ir
prepare_ir-Refusal ex =
    option_holds Refusal ex.build _ _ (λ e. tt) (λ err e. fail_render-Refusal err)

prepare_body-Refusal : (ex : Exchange) (allow : Bool) → Refusal (prepare_body ex allow)
unfolding prepare_body
prepare_body-Refusal ex false = prepare_ir-Refusal ex
prepare_body-Refusal ex true = go ex.forwarding
  where
    go :
        (w : Forwarding)
        → Refusal (elim w [
          | not_forwarded ↦ prepare_ir ex
          | rewrite_refused ↦ prepare_ir ex
          | build_failed e ↦ fail_render e
          | built streaming ↦ ready path_passthrough streaming
        ])
    go not_forwarded = prepare_ir-Refusal ex
    go rewrite_refused = prepare_ir-Refusal ex
    go (build_failed e) = fail_render-Refusal e
    go (built streaming) = tt

abbrev Stops : Option Outcome → Type 0
Stops none = Unit {0}
Stops (some o) = Unanswered o

stopped_waiting-Stops : (ctx : Contexts) → Stops (stopped_waiting ctx)
unfolding stopped_waiting
stopped_waiting-Stops ctx =
    if_holds Stops ctx.timed_out _ _ (λ t. (tt, refl))
      (λ t. if_holds Stops ctx.ended _ _ (λ e. (tt, refl)) (λ e. tt))

authorize-Refusal :
    (ex : Exchange) (path : String) (streaming : Bool) → Refusal (authorize ex path streaming)
unfolding authorize
authorize-Refusal ex path streaming =
    option_holds Refusal ex.authorized _ _ (λ e. tt)
      (λ err e.
        option_holds Refusal (stopped_waiting ex.authorized_ctx) _ _ (λ n. (tt, refl))
          (λ o s. subst Stops s (stopped_waiting-Stops ex.authorized_ctx)))

prepare_send-Refusal : (ex : Exchange) (p : Prepared) → Refusal p → Refusal (prepare_send ex p)
unfolding prepare_send
prepare_send-Refusal ex (refused o err msg ie path) h = h
prepare_send-Refusal ex (ready path streaming) h =
    option_holds Refusal ex.replayable _ _ (λ e. authorize-Refusal ex path streaming)
      (λ err e. (tt, refl))

pub prepare-Refusal : (ex : Exchange) (allow : Bool) → Refusal (prepare ex allow)
unfolding prepare
prepare-Refusal ex allow =
    option_holds Refusal ex.credential _ _
      (λ e.
        option_holds Refusal ex.base_url _ _
          (λ u. prepare_send-Refusal ex (prepare_body ex allow) (prepare_body-Refusal ex allow))
          (λ err u. (tt, refl)))
      (λ err e. (tt, refl))

-- The adapter's classifiers answer by constants of the package.
abbrev pub KnownBody : Option (Response → Option Failure → Outcome) → Type 0
KnownBody none = Unit
KnownBody (some f) = (r : Response) (e : Option Failure) → IsKnown (f r e)

abbrev pub Classifies : Exchange → Type 0
Classifies ex =
    ((r : Option Response) (e : Option Failure) → IsKnown (ex.ad r e)) × KnownBody ex.classify_body

classify-IsKnown :
    (ad : Option Response → Option Failure → Outcome) (ctx : Contexts) (r : Option Response)
    (e : Option Failure)
    → ((q : Option Response) (f : Option Failure) → IsKnown (ad q f))
    → IsKnown (classify ad ctx r e)
unfolding classify
classify-IsKnown ad ctx r none h = h r none
classify-IsKnown ad ctx r (some e) h =
    if_holds IsKnown ctx.timed_out _ _ (λ t. tt)
      (λ t. if_holds IsKnown ctx.cancelled _ _ (λ c. tt) (λ c. h r (some e)))

pub sent_outcome-IsKnown : (ex : Exchange) → Classifies ex → IsKnown (sent_outcome ex)
unfolding sent_outcome refine_body
sent_outcome-IsKnown ex h =
    let o = classify ex.ad ex.sent_ctx ex.resp ex.sent in
    let base : IsKnown o = classify-IsKnown ex.ad ex.sent_ctx ex.resp ex.sent h.0 in
    option_holds IsKnown ex.resp _ _ (λ e. base)
      (λ r e.
        if_holds IsKnown (is_fatal o && r.status_code == 400) _ _
          (λ t.
            option_holds IsKnown ex.classify_body _ _ (λ n. base)
              (λ f n. (subst KnownBody n h.1) r (body_error ex)))
          (λ t. base))
