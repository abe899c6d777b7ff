-- ===== src/Exec/Examples.antt =====
-- The executor's theorems at a chain of three candidates, two of them of one target.
use darkrouter.Base.{
  ℕ, ◌+◌, ◌*◌, ◌≤◌, ◌<◌, suc, ◌≡◌, ◌↔◌, refl, arith, String, Bool, true, false, List, [], ◌∷◌,
  Option, none, some, length, leb, if◌then◌else◌, str_eq,
}
use darkrouter.Adapter.{retryable_provider, retryable_credential, success}
use darkrouter.Exec.Advance.{next_index, same_target, skip_target, skip_from}
use darkrouter.Exec.Advance.Jumps.{SameTarget, provider_failure_jumps}
use darkrouter.Exec.Attempts.{AttemptResult, RequestRecord, Env}
use darkrouter.Ir.{Error, StreamEvent, ping}
use darkrouter.Exec.Attempts.Bounds.{run_attempts_policy}
use darkrouter.Exec.Attempts.Run.{run_attempts}
use darkrouter.Exec.Attempts.Traced.{Log, issued_count, IsChain, traced}
use darkrouter.Exec.Budget.{Timeouts}
use darkrouter.Exec.Commit.Buffer.{new_buffer, add_all, event_overhead}
use darkrouter.Exec.Commit.Buffer.Bound.{charged, add_all_bounded}
use darkrouter.Exec.Commit.Writer.{a_write, a_flush, Call}
use darkrouter.Router.Types.{Candidate}

abbrev candidate : String → String → Candidate
candidate provider key = record {
  provider_id = provider;
  key_id = key;
  model = "m";
  kind = "openai";
  publisher = "";
  inferred = false;
}

abbrev chain : List Candidate
chain = candidate "acme" "k1" ∷ candidate "acme" "k2" ∷ candidate "globex" "k1" ∷ []

provider_failure_jumps_example :
    (suc (0 + 0) < (next_index chain 0 retryable_provider 500).0)
    ↔ SameTarget (candidate "acme" "k2") (candidate "acme" "k1")
unfolding next_index skip_target skip_from same_target
provider_failure_jumps_example =
    provider_failure_jumps chain 0 500 0 (candidate "acme" "k1") (candidate "acme" "k2") refl
      (λ e. omega (arith, e)) refl (omega arith)

abbrev timeouts : Timeouts
timeouts = record { connect = 10; first_byte = 60; total = 600 }

abbrev a_ping : StreamEvent
a_ping = record {
  event_type = ping;
  index = 0;
  delta = none;
  usage = none;
  stop_reason = "";
  id = "";
  model = "";
  warnings = [];
}

add_all_bounded_example :
    (add_all (new_buffer 100) (a_ping ∷ a_ping ∷ []) ≡ (
      if leb (charged (a_ping ∷ a_ping ∷ [])) 100
      then some (record {
        evs = a_ping ∷ a_ping ∷ [];
        bytes = charged (a_ping ∷ a_ping ∷ []);
        max_bytes = 100;
      })
      else none))
    × (event_overhead * length (a_ping ∷ a_ping ∷ []) ≤ charged (a_ping ∷ a_ping ∷ []))
add_all_bounded_example = add_all_bounded 100 (a_ping ∷ a_ping ∷ []) (omega arith)

abbrev calls : List Call
calls = a_write 0 0 none ∷ a_write 5 3 (some "broken pipe") ∷ a_flush (some "closed") ∷ []

abbrev answer : Bool → AttemptResult
answer served = record {
  outcome = if served then success else retryable_credential;
  status = if served then 200 else 401;
  err = none;
  path = "ir";
  committed = served;
  client_gone = false;
  issued = true;
  rows = [];
}

-- A world that is its clock; the first key of every provider is refused.
abbrev env : Env ℕ
env = record {
  now = λ w. (w + 1, w);
  adapter_for = λ kind. true;
  fleet = none;
  attempt = λ w c seq forward. (w + 20, answer (str_eq c.key_id "k2"));
  shut_down = λ w. false;
}

abbrev new_record : RequestRecord
new_record = record { skips = []; attempts = []; status = "error"; error_code = "" }

run_attempts_policy_example :
    (out : (ℕ × Log) × RequestRecord × Option Error) × (run_attempts
        (traced env)
        4
        timeouts
        5
        chain
        (5, [])
        new_record
      ≡ some out)
    × ((issued_count out.0.1 ≤ 4) × IsChain out.0.1)
run_attempts_policy_example = run_attempts_policy env 4 timeouts 5 chain 5 new_record
