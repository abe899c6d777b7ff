-- ===== src/Router/Resolve/Complete.antt =====
-- What `Resolve` leaves out, and why: every attempt that passes the checks is a candidate, or a
-- skip that says it was cooling.
use mathlib.Core.List.{Memᴰ}
use darkrouter.Base.{Bool, true, false, not, List, [], ◌∷◌, ◌++◌, string_eq, if◌then◌else◌}
use darkrouter.Catalog.{Model}
use darkrouter.Health.Availability.{frozen_available}
use darkrouter.Provider.{Credential, Provider}
use darkrouter.Router.Filter.{key_of, candidate_of, cooling_skip, no_key}
use darkrouter.Router.Types.{Snapshot, Candidate, Skip, Target}

-- The credentials that a provider is attempted with: its own in order, or none at all.
abbrev pub attempts_of : Bool → List Credential → List Credential
attempts_of free [] = if free then no_key ∷ [] else []
attempts_of free (c ∷ cs) = c ∷ cs

abbrev pub Outputs : Type 0
Outputs = List Candidate × List Skip

-- The attempt is a candidate where it was available, and a skip where it was cooling.
abbrev pub Accounted : Bool → Candidate → Skip → Outputs → Type 0
Accounted true c k r = Memᴰ c r.0
Accounted false c k r = Memᴰ k r.1

abbrev joined : Outputs → Outputs → Outputs
joined r s = (r.0 ++ s.0, r.1 ++ s.1)

module _ (snap : Snapshot) (p : Provider) (m : Model) (t : Target) (c : Credential) where
  abbrev Credited : Outputs → Type 0
  Credited r =
      Accounted (frozen_available snap.health (key_of p c t)) (candidate_of p m t c)
        (cooling_skip p t c) r

  -- What one round of the loop adds to the later ones.
  abbrev step : Bool → Credential → Outputs → Outputs
  step b d r = if not b then (r.0, cooling_skip p t d ∷ r.1) else (candidate_of p m t d ∷ r.0, r.1)
