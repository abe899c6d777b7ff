-- ===== src/Adapter.antt =====
-- internal/adapter/adapter.go: the classification that drives failover.
use darkrouter.Base.{String, Bool, true, false}

-- `Outcome` is a Go string type; `other` is any value that is none of the constants.
pub data Outcome : Type 0 where
  success : Outcome
  retryable_provider : Outcome
  retryable_credential : Outcome
  retryable_model : Outcome
  fatal : Outcome
  client_cancelled : Outcome
  other : String → Outcome

-- o == OutcomeSuccess, and so on
abbrev pub is_success : Outcome → Bool
is_success success = true
is_success retryable_provider = false
is_success retryable_credential = false
is_success retryable_model = false
is_success fatal = false
is_success client_cancelled = false
is_success (other _) = false

abbrev pub is_fatal : Outcome → Bool
is_fatal fatal = true
is_fatal success = false
is_fatal retryable_provider = false
is_fatal retryable_credential = false
is_fatal retryable_model = false
is_fatal client_cancelled = false
is_fatal (other _) = false

abbrev pub is_retryable_provider : Outcome → Bool
is_retryable_provider retryable_provider = true
is_retryable_provider success = false
is_retryable_provider retryable_credential = false
is_retryable_provider retryable_model = false
is_retryable_provider fatal = false
is_retryable_provider client_cancelled = false
is_retryable_provider (other _) = false

abbrev pub is_client_cancelled : Outcome → Bool
is_client_cancelled client_cancelled = true
is_client_cancelled success = false
is_client_cancelled retryable_provider = false
is_client_cancelled retryable_credential = false
is_client_cancelled retryable_model = false
is_client_cancelled fatal = false
is_client_cancelled (other _) = false

-- An outcome that is one of the constants.
abbrev pub IsKnown : Outcome → Type 0
IsKnown (other _) = ⊥
IsKnown success = Unit
IsKnown _ = Unit
