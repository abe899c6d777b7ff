-- ===== src/Router/Filter.antt =====
-- internal/router/filter.go: one resolved target becomes candidates and skips.
use darkrouter.Base.{
  String, Bool, true, false, not, ◌&&◌, List, [], ◌∷◌, Option, none, some, Map, lookup, string_eq,
  str_eq, if◌then◌else◌,
}
use darkrouter.Catalog.{
  Model, Capabilities, satisfies, declares_surface, routable, vetoed, has_surface,
}
use darkrouter.Health.Availability.{frozen_available}
use darkrouter.Health.Types.{Key}
use darkrouter.Provider.{Credential, Provider, is_keyless}
use darkrouter.Router.Order.{order_credentials}
use darkrouter.Router.Types.{
  Query, Snapshot, Candidate, Skip, SkipReason, Target, disabled, cooling, surface, capability,
  no_credential, removed, adapter_surface, unsanctioned,
}

abbrev pub needs : Query → Capabilities
needs q = record {
  tools = q.needs_tools;
  vision = q.needs_vision;
  reasoning = q.needs_reasoning;
  known = false;
}

-- `known && !ss.Has(q.Surface)`: a kind that no adapter is registered for constrains nothing.
unfoldable pub cannot_render : Option (List String) → String → Bool
cannot_render none s = false
cannot_render (some surfaces) s = not (has_surface surfaces s)

-- `Keyless`.
unfoldable pub keyless : Provider → Bool
keyless p = is_keyless p.auth_style

-- The one attempt of a keyless provider carries no credential.
abbrev pub no_key : Credential
no_key = record { id = ""; enabled = true }

unfoldable pub key_of : Provider → Credential → Target → Key
key_of p c t = record { provider_id = p.id; key_id = c.id; model = t.model_id }

unfoldable pub candidate_of : Provider → Model → Target → Credential → Candidate
candidate_of p m t c = record {
  provider_id = p.id;
  key_id = c.id;
  model = t.model_id;
  kind = p.kind;
  publisher = m.publisher;
  inferred = not m.capabilities.known;
}

unfoldable pub cooling_skip : Provider → Target → Credential → Skip
cooling_skip p t c = record {
  provider_id = p.id;
  key_id = c.id;
  model = t.model_id;
  reason = cooling;
}

-- The loop over the credentials.
unfoldable pub admit_credentials :
    Snapshot → Provider → Model → Target → List Credential → List Candidate × List Skip
admit_credentials snap p m t [] = ([], [])
admit_credentials snap p m t (c ∷ cs) =
    let (cands, skips) = admit_credentials snap p m t cs in
    if not (frozen_available snap.health (key_of p c t))
    then (cands, cooling_skip p t c ∷ skips)
    else (candidate_of p m t c ∷ cands, skips)

abbrev pub rejected : Target → SkipReason → List Candidate × List Skip × Bool
rejected t why = (
  [],
  record { provider_id = t.provider_id; key_id = ""; model = t.model_id; reason = why } ∷ [],
  true,
)

abbrev pub with_true : List Candidate × List Skip → List Candidate × List Skip × Bool
with_true r = (r.0, r.1, true)

-- Past the checks of the target: its credentials, or the keyless attempt.
unfoldable pub admit_target :
    Snapshot → Provider → Model → Target → List Credential → List Candidate × List Skip × Bool
admit_target snap p m t [] =
    if not (keyless p)
    then rejected t no_credential
    else with_true (admit_credentials snap p m t (no_key ∷ []))
admit_target snap p m t (c ∷ cs) = with_true (admit_credentials snap p m t (c ∷ cs))

-- The checks on the model, in the order that decides which reason is recorded.
unfoldable pub check_model :
    Snapshot → Query → Provider → Model → Target → List Candidate × List Skip × Bool
check_model snap q p m t =
    if not (declares_surface m q.surface)
    then rejected t surface
    else if not (routable m)
    then rejected t removed
    else if vetoed m.free_tier && not p.allow_unsanctioned_free
    then rejected t unsanctioned
    else if not (str_eq q.surface "")
        && cannot_render (lookup p.kind snap.adapter_surfaces) q.surface
    then rejected t adapter_surface
    else if not (satisfies m.capabilities (needs q))
    then rejected t capability
    else admit_target snap p m t (order_credentials p.id p.credentials snap.last_used)

unfoldable pub check_provider :
    Snapshot → Query → Provider → Target → List Candidate × List Skip × Bool
check_provider snap q p t = elim (snap.catalog.lookup_model t.provider_id t.model_id) [
  | none ↦ rejected t surface
  | some m ↦ check_model snap q p m t
]

unfoldable pub filter_target :
    Target → Query → Snapshot → Map String Provider → List Candidate × List Skip × Bool
filter_target t q snap by_id = elim (lookup t.provider_id by_id) [
  | none ↦ (
    [],
    record { provider_id = t.provider_id; key_id = ""; model = t.model_id; reason = disabled } ∷ [],
    false,
  )
  | some p ↦ check_provider snap q p t
]
