-- ===== src/Exec/Attempt/Examples.antt =====
-- The theorems on an attempt at one that streams a word and then fails, and at one that cannot be
-- rendered.
use darkrouter.Base.{
  len, suc, true, false, List, [], ◌∷◌, Option, none, some, length, ◌≡◌, ◌⊎◌, refl,
}
use darkrouter.Adapter.{fatal, Outcome, IsKnown, success, is_success, is_fatal, retryable_provider}
use darkrouter.Exec.Attempt.{
  Row, RequestRecord, Response, AttemptCtx, key_of, signal_of, demote_last_attempt,
}
use darkrouter.Exec.Attempt.Demotion.{spent, charged_row, demote_last_attempt_moves}
use darkrouter.Exec.Attempt.Failures.{Failure, Contexts}
use darkrouter.Exec.Attempt.Late.{standing_for, late_failure_told}
use darkrouter.Exec.Attempt.Outcomes.{Classifies}
use darkrouter.Exec.Attempt.Reports.{Answer}
use darkrouter.Exec.Attempt.Run.{Surfaces, surface_for, sent_context, attempt}
use darkrouter.Exec.Attempt.Send.{Exchange, not_forwarded, prepare, path_ir, sent_outcome}
use darkrouter.Exec.Attempt.Stream.{Pulled, event, failed, Client, attempt_stream}
use darkrouter.Exec.Attempt.Stream.Surface.{stream_surface}
use darkrouter.Exec.Attempt.Stream.Whole.{up_to_failure, attempt_stream_whole}
use darkrouter.Exec.Attempt.Told.{attempt-signals}
use darkrouter.Exec.Attempt.Unsent.{unsent_says_nothing}
use darkrouter.Exec.Commit.Buffer.{new_buffer}
use darkrouter.Health.Types.{key_Eq, Signal}
use darkrouter.Ir.{StreamEvent, content_delta, ping, text}
use darkrouter.Router.Types.{Candidate}

abbrev candidate : Candidate
candidate = record {
  provider_id = "acme";
  key_id = "k1";
  model = "m";
  kind = "openai";
  publisher = "";
  inferred = false;
}

abbrev fresh : AttemptCtx
fresh = record {
  cand = candidate;
  rec = record {
    tokens_in = 0;
    tokens_out = 0;
    cache_read_tokens = 0;
    cache_write_tokens = 0;
    reasoning_tokens = 0;
    cache_write_5m_tokens = 0;
    cache_write_1h_tokens = 0;
    attempts = [];
    error_code = "";
  };
  resp = none;
  health_done = false;
  signals = [];
}

abbrev quiet : Contexts
quiet = record { timed_out = false; ended = false; cancelled = false }

abbrev typed : Failure
typed = record {
  message = "rate_limit: slow down";
  typed = some (record { error_type = "rate_limit"; message = "slow down"; code = "" });
  client_write = false;
}

abbrev exchange : Exchange
exchange = record {
  credential = none;
  base_url = none;
  forwarding = not_forwarded;
  build = none;
  replayable = none;
  authorized = none;
  authorized_ctx = quiet;
  resp = some (record { status_code = 200; retry_after = none });
  sent = none;
  sent_ctx = quiet;
  ad = λ r e. elim r [ none ↦ retryable_provider | some _ ↦ success ];
  body_read = none;
  classify_body = none;
  shut_down = false;
}

abbrev word : StreamEvent
word = record {
  event_type = content_delta;
  index = 0;
  delta = some (record {
    block = text;
    text_part = "hi";
    thinking_part = "";
    signature = "";
    tool_input = "";
    tool_id = "";
    tool_name = "";
    extra = [];
  });
  usage = none;
  stop_reason = "";
  id = "";
  model = "";
  warnings = [];
}

abbrev pulls : List Pulled
pulls = event (record word { event_type = ping }) ∷ event word ∷ failed quiet typed ∷ []

abbrev client : Client
client = record {
  wants = λ items. true;
  alive = λ items. true;
  commits = λ items. true;
  write_error = "";
  write_ctx = quiet;
}

abbrev surfaces : Surfaces
surfaces = record {
  forward_stream = stream_surface client 1000 quiet pulls;
  forward_unary = stream_surface client 1000 quiet pulls;
  respond = stream_surface client 1000 quiet pulls;
}

ad-IsKnown :
    (r : Option Response) → IsKnown (elim r [ none ↦ retryable_provider | some _ ↦ success ])
ad-IsKnown none = tt
ad-IsKnown (some r) = tt

exchange-Classifies : Classifies exchange
exchange-Classifies = ((λ r e. ad-IsKnown r), tt)

attempt-signals_example :
    (s : Signal) × ((attempt exchange surfaces fresh false).0.signals ≡ (key_of candidate, s) ∷ [])
    × IsKnown s.outcome
    × (length (attempt exchange surfaces fresh false).0.rec.attempts ≡ suc 0)
attempt-signals_example =
    attempt-signals exchange surfaces fresh false exchange-Classifies refl refl

abbrev unrendered : Exchange
unrendered = record exchange { build = some typed }

unsent_says_nothing_example :
    (o : Outcome) × ((attempt unrendered surfaces fresh false).0.signals
      ≡ (key_of candidate, signal_of o none) ∷ [])
    × (is_success o ≡ false)
    × (is_fatal o ≡ false)
unfolding attempt
unsent_says_nothing_example = unsent_says_nothing unrendered surfaces fresh false refl refl refl

abbrev answer : Answer
answer = (attempt_stream client 1000 quiet pulls (sent_context exchange fresh path_ir)).0

late_failure_told_example :
    ((attempt exchange surfaces fresh false).1.outcome ≡ success)
    × ((attempt exchange surfaces fresh false).1.committed ≡ true)
    × ((attempt exchange surfaces fresh false).0.signals
        ≡ (
          key_of candidate,
          signal_of answer.outcome (standing_for answer.outcome exchange.resp answer.err),
        )
          ∷ [])
unfolding prepare sent_outcome surface_for stream_surface attempt_stream sent_context new_buffer len
late_failure_told_example =
    late_failure_told exchange surfaces fresh false path_ir false answer refl refl refl refl refl
      refl refl

abbrev burned_row : Row
burned_row = record {
  seq = 0;
  provider_id = "acme";
  key_id = "k1";
  model = "m";
  outcome = success;
  status_code = 200;
  error = "";
  path = "ir";
  tokens_in = 0;
  tokens_out = 0;
}

abbrev burned : RequestRecord
burned = record fresh.rec { tokens_in = 12; cache_write_5m_tokens = 4; attempts = burned_row ∷ [] }

demote_last_attempt_moves_example :
    let after = demote_last_attempt burned retryable_provider false in
    (after ≡ spent burned (charged_row burned retryable_provider burned_row ∷ []))
    × (demote_last_attempt after fatal false
        ≡ spent burned (charged_row burned fatal burned_row ∷ []))
demote_last_attempt_moves_example =
    demote_last_attempt_moves burned retryable_provider fatal [] burned_row refl refl refl refl refl

attempt_stream_whole_example :
    (((attempt_stream client 1000 quiet pulls fresh).1 ≡ [])
      × ((attempt_stream client 1000 quiet pulls fresh).0.committed ≡ false))
    ⊎ ((attempt_stream client 1000 quiet pulls fresh).1 ≡ up_to_failure pulls)
attempt_stream_whole_example =
    attempt_stream_whole client 1000 quiet pulls fresh ((λ items. refl), (λ items. refl))
