-- ===== src/Exec/Advance.antt =====
-- internal/exec/advance.go: where the chain goes after an attempt.
pub mod Jumps
use darkrouter.Base.{
  ℕ, ◌+◌, ◌-◌, String, Bool, true, false, ◌&&◌, List, [], ◌∷◌, Option, none, some, length,
  get_elem?, suc, zero, ltb, ◌==◌, str_eq, if◌then◌else◌,
}
use darkrouter.Adapter.{
  Outcome, success, retryable_provider, retryable_credential, retryable_model, fatal,
  client_cancelled, other,
}
use darkrouter.Router.Types.{Candidate}
use Prim.Native.String.{◌++◌ as ◌+++◌}

pub data Action : Type 0 where
  action_finish action_return action_next : Action

unfoldable pub same_target : Candidate → Candidate → Bool
same_target d c = str_eq d.provider_id c.provider_id && str_eq d.model c.model

-- The loop of `skipTarget` over the candidates from `j` on.
unfoldable pub skip_from : Candidate → List Candidate → ℕ → ℕ
unfolding same_target
skip_from c [] j = j
skip_from c (d ∷ ds) j = if same_target d c then skip_from c ds (j + 1) else j

abbrev pub after : ℕ → List Candidate → List Candidate
after i [] = []
after zero (c ∷ cs) = cs
after (suc i) (c ∷ cs) = after i cs

unfoldable pub skip_target : List Candidate → ℕ → ℕ
unfolding skip_from
skip_target cands i = elim (get_elem? cands i) [
  | none ↦ i
  | some c ↦ skip_from c (after i cands) (i + 1)
]

unfoldable pub next_index : List Candidate → ℕ → Outcome → ℕ → ℕ × Action
unfolding skip_target
next_index cands i success status = (i, action_finish)
next_index cands i fatal status = (i, action_return)
next_index cands i client_cancelled status = (i, action_return)
next_index cands i retryable_credential status = (i + 1, action_next)
next_index cands i retryable_model status = (i + 1, action_next)
next_index cands i retryable_provider status =
    if status == 429 then (i + 1, action_next) else (skip_target cands i, action_next)
next_index cands i (other _) status = (i + 1, action_next)

unfoldable pub trace_skip_of : Candidate → String → String
trace_skip_of c reason =
    c.provider_id +++ ("/" +++ (c.key_id +++ ("/" +++ (c.model +++ (":" +++ reason)))))

abbrev pub skip_target_failed : String
skip_target_failed = "target_failed"

-- The candidates strictly between `i` and `to`, as trace skips: the first `n` of a list.
unfoldable pub render_skips : ℕ → List Candidate → List String
unfolding trace_skip_of
render_skips zero cs = []
render_skips (suc n) [] = []
render_skips (suc n) (c ∷ cs) = trace_skip_of c skip_target_failed ∷ render_skips n cs

unfoldable pub advance_skips : List Candidate → ℕ → ℕ → List String
unfolding render_skips
advance_skips cands i to = render_skips (to - (i + 1)) (after i cands)
