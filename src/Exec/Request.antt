-- ===== src/Exec/Request.antt =====
-- internal/exec over internal/health: the loop with the breaker as its fleet and the attempt as
-- its attempt. The outside of the gateway answers from a state of its own.
pub mod Probes
mod Examples
use darkrouter.Base.{ℕ, String, Bool, false, List, [], none, some}
use darkrouter.Exec.Attempt as Attempt
use darkrouter.Exec.Attempt.{AttemptCtx}
use darkrouter.Exec.Attempt.Run.{Surfaces, attempt}
use darkrouter.Exec.Attempt.Send.{Exchange}
use darkrouter.Exec.Attempt.Told.{record_all}
use darkrouter.Exec.Attempts.{AttemptResult, Fleet, Env}
use darkrouter.Health.Breaker.{available}
use darkrouter.Health.Lru.{mark_used}
use darkrouter.Health.Types.{Key, CredKey, Breaker}
use darkrouter.Router.Types.{Candidate}

-- What an attempt at a candidate meets outside.
pub record Outside (X : Type 0) : Type 0 where
  pub now : X → X × ℕ
  pub clock : X → ℕ
  pub adapter_for : String → Bool
  pub exchange : X → Candidate → ℕ → Bool → X × Exchange
  pub surfaces : X → Candidate → ℕ → Bool → Surfaces
  pub shut_down : X → Bool

pub record World (X : Type 0) : Type 0 where
  pub breaker : Breaker
  pub request : Attempt.RequestRecord
  pub outside : X

-- &AttemptCtx{…}
unfoldable pub new_attempt : Candidate → Attempt.RequestRecord → AttemptCtx
new_attempt c rec = record { cand = c; rec = rec; resp = none; health_done = false; signals = [] }

module _ {X : Type 0} (o : Outside X) where
  unfoldable pub fleet : Fleet (World X)
  unfolding available mark_used
  fleet = record {
    available = λ w k. (
      record w { breaker = (available w.breaker k (o.clock w.outside)).0 },
      (available w.breaker k (o.clock w.outside)).1,
    );
    mark_used = λ w k now. record w { breaker = mark_used w.breaker k now };
  }

  unfoldable pub make_attempt : World X → Candidate → ℕ → Bool → World X × AttemptResult
  unfolding attempt new_attempt record_all
  make_attempt w c seq forward =
      let (x, ex) = o.exchange w.outside c seq forward in
      let (ac, res) =
        attempt ex (o.surfaces w.outside c seq forward) (new_attempt c w.request) forward in
      (
        record {
          breaker = record_all w.breaker ac.signals (o.clock x);
          request = ac.rec;
          outside = x;
        },
        res,
      )

  unfoldable pub wired : Env (World X)
  unfolding fleet make_attempt
  wired = record {
    now = λ w. (record w { outside = (o.now w.outside).0 }, (o.now w.outside).1);
    adapter_for = o.adapter_for;
    fleet = some fleet;
    attempt = make_attempt;
    shut_down = λ w. o.shut_down w.outside;
  }
