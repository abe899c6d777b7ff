-- ===== src/Exec/Forward/Examples.antt =====
-- The theorem on a forwarded stream at two events in three chunks and a connection that breaks.
use darkrouter.Base.{true, false, List, [], ◌∷◌, ◌++◌, none, ◌≡◌, ◌⊎◌, refl}
use darkrouter.Exec.Attempt.{AttemptCtx}
use darkrouter.Exec.Attempt.Failures.{Contexts}
use darkrouter.Exec.Forward.{Setting, Ending, broken, forward_stream}
use darkrouter.Exec.Forward.Whole.{forward_stream_exact}
use darkrouter.Exec.RawStream.Cuts.{concat}
use darkrouter.Sse.Lines.{Bytes}

abbrev quiet : Contexts
quiet = record { timed_out = false; ended = false; cancelled = false }

-- Every event is content.
abbrev setting : Setting
setting = record {
  recognize = λ raw. record {
    content = true;
    usage_only = false;
    terminal = false;
    err_payload = "";
    usage = none;
  };
  typed = λ raw. record { message = "failed"; typed = none; client_write = false };
  strip = false;
  max_precommit_bytes = 1000;
  ctx = quiet;
  alive = λ out. true;
  write_error = "";
  error_event = b'e' ∷ b'\n' ∷ b'\n' ∷ [];
}

abbrev ending : Ending
ending = broken quiet (record { message = "unexpected EOF"; typed = none; client_write = false })

abbrev chunks : List Bytes
chunks =
    (b'a' ∷ b'\n' ∷ []) ∷ (b'\n' ∷ b'b' ∷ []) ∷ (b'\r' ∷ b'\n' ∷ b'\r' ∷ b'\n' ∷ b'c' ∷ []) ∷ []

abbrev fresh : AttemptCtx
fresh = record {
  cand = record {
    provider_id = "acme";
    key_id = "k1";
    model = "m";
    kind = "openai";
    publisher = "";
    inferred = false;
  };
  rec = record {
    tokens_in = 0;
    tokens_out = 0;
    cache_read_tokens = 0;
    cache_write_tokens = 0;
    reasoning_tokens = 0;
    cache_write_5m_tokens = 0;
    cache_write_1h_tokens = 0;
    attempts = [];
    error_code = "";
  };
  resp = none;
  health_done = false;
  signals = [];
}

forward_stream_exact_example :
    (((forward_stream setting 100 ending chunks fresh).0.committed ≡ false)
      × ((forward_stream setting 100 ending chunks fresh).1 ≡ []))
    ⊎ ((concat (forward_stream setting 100 ending chunks fresh).1 ≡ concat chunks)
        ⊎ (concat (forward_stream setting 100 ending chunks fresh).1
            ≡ concat chunks ++ setting.error_event))
forward_stream_exact_example =
    forward_stream_exact setting 100 ending chunks fresh (λ out. refl) refl
