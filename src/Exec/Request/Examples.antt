-- ===== src/Exec/Request/Examples.antt =====
-- A request over two candidates: the first refuses the credential, the second streams a word.
use darkrouter.Base.{
  ℕ, ◌+◌, ◌==◌, if_holds, String, true, false, [], ◌∷◌, Option, none, some, pos, ◌≡◌, str_eq,
  if◌then◌else◌, lookup,
}
use darkrouter.Adapter.{IsKnown, retryable_credential, retryable_provider, success}
use darkrouter.Exec.Attempt.Failures.{Contexts}
use darkrouter.Exec.Attempt.Run.{Surfaces}
use darkrouter.Exec.Attempt.Outcomes.{Classifies}
use darkrouter.Exec.Attempt.Send.{Exchange, not_forwarded}
use darkrouter.Exec.Attempt.Stream.{Client}
use darkrouter.Exec.Attempt.Stream.Surface.{stream_surface}
use darkrouter.Exec.Attempt as Attempt
use darkrouter.Exec.Attempts.{RequestRecord}
use darkrouter.Exec.Attempts.Run.{run_attempts}
use darkrouter.Exec.Budget.{Timeouts}
use darkrouter.Exec.Request.{Outside, World, wired}
use darkrouter.Exec.Request.Probes.{NoProbe, run_attempts-NoProbe}
use darkrouter.Health.Breaker.{new}
use darkrouter.Ir.{Error}
use darkrouter.Router.Types.{Candidate}

abbrev candidate : String → Candidate
candidate key = record {
  provider_id = "acme";
  key_id = key;
  model = "m";
  kind = "openai";
  publisher = "";
  inferred = false;
}

abbrev quiet : Contexts
quiet = record { timed_out = false; ended = false; cancelled = false }

abbrev exchange : ℕ → Exchange
exchange status = record {
  credential = none;
  base_url = none;
  forwarding = not_forwarded;
  build = none;
  replayable = none;
  authorized = none;
  authorized_ctx = quiet;
  resp = some (record { status_code = status; retry_after = none });
  sent = none;
  sent_ctx = quiet;
  ad = λ r e. elim r [
    | none ↦ retryable_provider
    | some q ↦ if q.status_code == 200 then success else retryable_credential
  ];
  body_read = none;
  classify_body = none;
  shut_down = false;
}

ad-IsKnown :
    (r : Option Attempt.Response)
    → IsKnown (elim r [
      | none ↦ retryable_provider
      | some q ↦ if q.status_code == 200 then success else retryable_credential
    ])
ad-IsKnown none = tt
ad-IsKnown (some q) =
    if_holds IsKnown (q.status_code == 200) success retryable_credential (λ h. tt) (λ h. tt)

exchange-Classifies : (status : ℕ) → Classifies (exchange status)
exchange-Classifies status = ((λ r e. ad-IsKnown r), tt)

abbrev client : Client
client = record {
  wants = λ items. true;
  alive = λ items. true;
  commits = λ items. true;
  write_error = "";
  write_ctx = quiet;
}

abbrev surfaces : Surfaces
surfaces = record {
  forward_stream = stream_surface client 1000 quiet [];
  forward_unary = stream_surface client 1000 quiet [];
  respond = stream_surface client 1000 quiet [];
}

-- The state of the outside is a clock.
abbrev outside : Outside ℕ
outside = record {
  now = λ x. (x + 1, x);
  clock = λ x. x;
  adapter_for = λ kind. true;
  exchange = λ x c seq forward. (x + 20, exchange (if str_eq c.key_id "k2" then 200 else 401));
  surfaces = λ x c seq forward. surfaces;
  shut_down = λ x. false;
}

abbrev world : World ℕ
world = record {
  breaker = new (pos 3) (pos 60);
  request = record {
    tokens_in = 0;
    tokens_out = 0;
    cache_read_tokens = 0;
    cache_write_tokens = 0;
    reasoning_tokens = 0;
    cache_write_5m_tokens = 0;
    cache_write_1h_tokens = 0;
    attempts = [];
    error_code = "";
  };
  outside = 5;
}

new-NoProbe : NoProbe (new (pos 3) (pos 60))
unfolding new lookup
new-NoProbe j = tt

abbrev new_record : RequestRecord
new_record = record { skips = []; attempts = []; status = "error"; error_code = "" }

abbrev timeouts : Timeouts
timeouts = record { connect = 10; first_byte = 60; total = 600 }

run_attempts-NoProbe_example :
    (out : World ℕ × RequestRecord × Option Error) × (run_attempts
        (wired outside)
        4
        timeouts
        5
        (candidate "k1" ∷ candidate "k2" ∷ [])
        world
        new_record
      ≡ some out)
    × NoProbe out.0.breaker
run_attempts-NoProbe_example =
    run_attempts-NoProbe outside 4 timeouts 5 (candidate "k1" ∷ candidate "k2" ∷ []) world
      new_record
      (λ x c seq forward. exchange-Classifies (if str_eq c.key_id "k2" then 200 else 401))
      new-NoProbe
