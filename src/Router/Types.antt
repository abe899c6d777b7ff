-- ===== src/Router/Types.antt =====
-- internal/router/types.go
use darkrouter.Base.{ℕ, String, Bool, List, Option, Map}
use darkrouter.Catalog.{Reader}
use darkrouter.Health.Availability.{Availability}
use darkrouter.Health.Types.{CredKey}
use darkrouter.Provider.{Provider}

pub record Query : Type 0 where
  pub model : String
  pub surface : String
  pub needs_tools : Bool
  pub needs_vision : Bool
  pub needs_reasoning : Bool

-- `Config` is read for its aliases alone; `none` is a nil `*config.Config`. The evaluation
-- instant is not read by `Resolve`: health comes resolved.
pub record Snapshot : Type 0 where
  pub providers : List Provider
  pub catalog : Reader
  pub aliases : Option (Map String (List String))
  pub health : Availability
  pub last_used : Map CredKey ℕ
  pub adapter_surfaces : Map String (List String)

pub record Candidate : Type 0 where
  pub provider_id : String
  pub key_id : String
  pub model : String
  pub kind : String
  pub publisher : String
  pub inferred : Bool

pub data SkipReason : Type 0 where
  disabled cooling surface capability no_credential removed adapter_surface unsanctioned :
      SkipReason

pub record Skip : Type 0 where
  pub provider_id : String
  pub key_id : String
  pub model : String
  pub reason : SkipReason

pub record Target : Type 0 where
  pub provider_id : String
  pub model_id : String
