-- ===== src/Exec/Attempt.antt =====
-- internal/exec: one upstream call. The request record and the attempt's context, with what an
-- attempt writes to them (internal/exec/exec.go, internal/exec/surface.go). Warnings, timers and
-- latencies are left out; the record has the fields that an attempt writes.
pub mod Failures
pub mod Reports
pub mod Send
pub mod Run
pub mod Outcomes
pub mod Told
pub mod Unsent
pub mod Late
pub mod Stream
pub mod Demotion
mod Examples
use darkrouter.Base.{
  ℕ, ◌+◌, String, Bool, true, false, not, ◌&&◌, ◌||◌, List, [], ◌∷◌, ◌++◌, Option, none, some,
  length, ℤ, pos, ◌==◌, if◌then◌else◌,
}
use darkrouter.Adapter.{Outcome, is_success, is_retryable_provider}
use darkrouter.Health.Types.{Key, Signal}
use darkrouter.Ir.{Usage}
use darkrouter.Router.Types.{Candidate}

-- `store.AttemptRecord`
pub record Row : Type 0 where
  pub seq : ℕ
  pub provider_id : String
  pub key_id : String
  pub model : String
  pub outcome : Outcome
  pub status_code : ℕ
  pub error : String
  pub path : String
  pub tokens_in : ℕ
  pub tokens_out : ℕ

-- `store.RequestRecord`
pub record RequestRecord : Type 0 where
  pub tokens_in : ℕ
  pub tokens_out : ℕ
  pub cache_read_tokens : ℕ
  pub cache_write_tokens : ℕ
  pub reasoning_tokens : ℕ
  pub cache_write_5m_tokens : ℕ
  pub cache_write_1h_tokens : ℕ
  pub attempts : List Row
  pub error_code : String

-- What a breaker signal reads of an `http.Response`: the status, and what `ParseRetryAfter` makes
-- of its header.
pub record Response : Type 0 where
  pub status_code : ℕ
  pub retry_after : Option ℤ

-- `AttemptCtx`. `signals` is what `Breaker.Record` has been called with.
pub record AttemptCtx : Type 0 where
  pub cand : Candidate
  pub rec : RequestRecord
  pub resp : Option Response
  pub health_done : Bool
  pub signals : List (Key × Signal)

-- rec.Attempts[n-1], changed; nothing when there is no row.
unfoldable pub on_last : (Row → Row) → List Row → List Row
on_last f [] = []
on_last f (r ∷ []) = f r ∷ []
on_last f (r ∷ s ∷ rows) = r ∷ on_last f (s ∷ rows)

unfoldable pub last_row : List Row → Option Row
last_row [] = none
last_row (r ∷ []) = some r
last_row (r ∷ s ∷ rows) = last_row (s ∷ rows)

unfoldable pub apply_usage : RequestRecord → Option Usage → RequestRecord
apply_usage rec none = rec
apply_usage rec (some u) = record rec {
  tokens_in = u.input_tokens;
  tokens_out = u.output_tokens;
  cache_read_tokens = u.cache_read_tokens;
  cache_write_tokens = u.cache_write_tokens;
  reasoning_tokens = u.reasoning_tokens;
  cache_write_5m_tokens = u.cache_write_5m_tokens;
  cache_write_1h_tokens = u.cache_write_1h_tokens;
}

unfoldable pub record_attempt :
    RequestRecord → Candidate → Outcome → ℕ → String → String → RequestRecord
record_attempt rec c outcome status_code error path =
    let row : Row = record {
      seq = length rec.attempts;
      provider_id = c.provider_id;
      key_id = c.key_id;
      model = c.model;
      outcome = outcome;
      status_code = status_code;
      error = error;
      path = path;
      tokens_in = 0;
      tokens_out = 0;
    } in
    record rec { attempts = rec.attempts ++ (row ∷ []) }

unfoldable pub burned_nothing : RequestRecord → Bool
burned_nothing rec =
    rec.tokens_in == 0
    && rec.tokens_out == 0
    && rec.cache_read_tokens == 0
    && rec.cache_write_tokens == 0
    && rec.reasoning_tokens == 0

-- The usage of the record goes to the last row.
unfoldable pub move_usage : RequestRecord → RequestRecord
unfolding on_last
move_usage rec = record rec {
  tokens_in = 0;
  tokens_out = 0;
  cache_read_tokens = 0;
  cache_write_tokens = 0;
  reasoning_tokens = 0;
  attempts =
      on_last (λ r. record r { tokens_in = rec.tokens_in; tokens_out = rec.tokens_out })
        rec.attempts;
}

unfoldable pub demote_row : RequestRecord → Outcome → Row → RequestRecord
unfolding on_last burned_nothing move_usage
demote_row rec outcome a =
    let named = record rec {
      attempts = on_last (λ r. record r { outcome = outcome }) rec.attempts;
    } in
    if not (a.tokens_in == 0) || not (a.tokens_out == 0)
    then named
    else if burned_nothing rec
    then named
    else move_usage named

unfoldable pub demote_last_attempt : RequestRecord → Outcome → Bool → RequestRecord
unfolding last_row demote_row
demote_last_attempt rec outcome committed =
    if committed || is_success outcome
    then rec
    else elim (last_row rec.attempts) [ none ↦ rec | some a ↦ demote_row rec outcome a ]

unfoldable pub key_of : Candidate → Key
key_of c = record { provider_id = c.provider_id; key_id = c.key_id; model = c.model }

unfoldable pub signal_of : Outcome → Option Response → Signal
signal_of o none = record {
  outcome = o;
  status_code = 0;
  retry_after = pos 0;
  has_retry_after = false;
}
signal_of o (some r) = elim r.retry_after [
  | none ↦ record {
    outcome = o;
    status_code = r.status_code;
    retry_after = pos 0;
    has_retry_after = false;
  }
  | some d ↦ record {
    outcome = o;
    status_code = r.status_code;
    retry_after = d;
    has_retry_after = true;
  }
]

-- `recordHealth` with `recordHealthFor`: once.
unfoldable pub record_health : AttemptCtx → Outcome → Option Response → AttemptCtx
unfolding key_of signal_of
record_health ac o resp = if ac.health_done then ac else record ac {
  health_done = true;
  signals = ac.signals ++ ((key_of ac.cand, signal_of o resp) ∷ []);
}
