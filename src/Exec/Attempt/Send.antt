-- ===== src/Exec/Attempt/Send.antt =====
-- internal/exec/exec.go, `attempt`. What is outside is asked once each: its answers are an
-- `Exchange`, and the three ways to read a 2xx body are surfaces.
use darkrouter.Base.{
  String, Bool, true, false, ◌&&◌, Option, none, some, ◌==◌, str_eq, if◌then◌else◌,
}
use darkrouter.Adapter.{Outcome, retryable_credential, retryable_model, fatal, is_fatal}
use darkrouter.Exec.Attempt.{Response}
use darkrouter.Exec.Attempt.Failures.{Failure, Contexts, classify, stopped_waiting, error_for}
use darkrouter.Exec.Attempts.{path_passthrough}
use darkrouter.Ir.{Error}

-- The passthrough block: not this request or target, a body that `rewriteForward` refuses, a
-- request that `BuildForward` cannot build, or one that it built, streaming or not.
pub data Forwarding : Type 0 where
  not_forwarded rewrite_refused : Forwarding
  build_failed : Failure → Forwarding
  built : Bool → Forwarding

pub record Exchange : Type 0 where
  pub credential : Option Failure
  pub base_url : Option Failure
  pub forwarding : Forwarding
  pub build : Option Failure
  pub replayable : Option Failure
  pub authorized : Option Failure
  pub authorized_ctx : Contexts
  pub resp : Option Response
  pub sent : Option Failure
  pub sent_ctx : Contexts
  pub ad : Option Response → Option Failure → Outcome
  pub body_read : Option Failure
  pub classify_body : Option (Response → Option Failure → Outcome)
  pub shut_down : Bool

abbrev pub path_ir : String
path_ir = "ir"

abbrev pub msg_credential_unavailable : String
msg_credential_unavailable = "credential unavailable"

abbrev pub msg_render_failed : String
msg_render_failed = "request could not be rendered for this provider"

-- A refusal before the send: `failBefore` with its arguments and the error to serve; or the path
-- that the request takes.
pub data Prepared : Type 0 where
  refused : Outcome → Failure → String → Error → String → Prepared
  ready : String → Bool → Prepared

unfoldable pub fail_before : Outcome → Failure → String → String → String → Prepared
fail_before o err msg typ path =
    refused o err msg (record { error_type = typ; message = msg; code = "" }) path

unfoldable pub fail_render : Failure → Prepared
unfolding fail_before
fail_render err =
    let other_way = fail_before retryable_model err msg_render_failed "darkrouter" path_ir in
    elim err.typed [
      | none ↦ other_way
      | some ie ↦
          if str_eq ie.error_type ""
          then other_way
          else refused fatal err msg_render_failed ie path_ir
    ]

unfoldable pub prepare_ir : Exchange → Prepared
unfolding fail_render
prepare_ir ex = elim ex.build [ none ↦ ready path_ir false | some e ↦ fail_render e ]

unfoldable pub prepare_body : Exchange → Bool → Prepared
unfolding prepare_ir
prepare_body ex false = prepare_ir ex
prepare_body ex true = elim ex.forwarding [
  | not_forwarded ↦ prepare_ir ex
  | rewrite_refused ↦ prepare_ir ex
  | build_failed e ↦ fail_render e
  | built streaming ↦ ready path_passthrough streaming
]

unfoldable pub authorize : Exchange → String → Bool → Prepared
unfolding fail_before stopped_waiting error_for
authorize ex path streaming = elim ex.authorized [
  | none ↦ ready path streaming
  | some e ↦ elim (stopped_waiting ex.authorized_ctx) [
    | some o ↦ let ie = error_for o (some e) in fail_before o e ie.message ie.error_type path
    | none ↦ fail_before retryable_credential e msg_credential_unavailable "authentication" path
  ]
]

unfoldable pub prepare_send : Exchange → Prepared → Prepared
unfolding authorize
prepare_send ex (refused o err msg ie path) = refused o err msg ie path
prepare_send ex (ready path streaming) = elim ex.replayable [
  | some e ↦ fail_before fatal e msg_render_failed "darkrouter" path
  | none ↦ authorize ex path streaming
]

-- Everything up to the send.
unfoldable pub prepare : Exchange → Bool → Prepared
unfolding prepare_body prepare_send
prepare ex allow_forward = elim ex.credential [
  | some e ↦ fail_before retryable_credential e msg_credential_unavailable "authentication" path_ir
  | none ↦ elim ex.base_url [
    | some e ↦
        fail_before retryable_credential e msg_credential_unavailable "authentication" path_ir
    | none ↦ prepare_send ex (prepare_body ex allow_forward)
  ]
]

-- doErr, after the body has been read.
abbrev pub body_error : Exchange → Option Failure
body_error ex = elim ex.body_read [ none ↦ ex.sent | some e ↦ some e ]

unfoldable pub refine_body : Exchange → Outcome → Response → Outcome
refine_body ex outcome r =
    if is_fatal outcome && r.status_code == 400
    then elim ex.classify_body [ none ↦ outcome | some f ↦ f r (body_error ex) ]
    else outcome

-- The outcome of the send, the body of a 400 looked into where the adapter can.
unfoldable pub sent_outcome : Exchange → Outcome
unfolding classify refine_body
sent_outcome ex =
    let outcome = classify ex.ad ex.sent_ctx ex.resp ex.sent in
    elim ex.resp [ none ↦ outcome | some r ↦ refine_body ex outcome r ]

-- The error of the send, or that of reading the body of the 400 that was looked into.
unfoldable pub send_error : Exchange → Option Failure
unfolding classify
send_error ex = elim ex.resp [
  | none ↦ ex.sent
  | some r ↦ elim ex.classify_body [
    | none ↦ ex.sent
    | some f ↦
        if is_fatal (classify ex.ad ex.sent_ctx ex.resp ex.sent) && r.status_code == 400
        then body_error ex
        else ex.sent
  ]
]
