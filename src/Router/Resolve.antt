-- ===== src/Router/Resolve.antt =====
-- internal/router/router.go
pub mod Reasons
pub mod Sound
pub mod Complete
use darkrouter.Base.{
  ℕ, String, Bool, true, false, not, ◌&&◌, ◌||◌, List, [], ◌∷◌, ◌++◌, Option, none, some, Map,
  lookup, insert, string_eq, if◌then◌else◌,
}
use darkrouter.Provider.{Provider}
use darkrouter.Router.Filter.{filter_target}
use darkrouter.Router.Names.{resolve_model, alias_for}
use darkrouter.Router.Types.{
  Query, Snapshot, Candidate, Skip, SkipReason, Target, disabled, cooling, surface, capability,
  no_credential, removed, adapter_surface, unsanctioned,
}

pub data RouteError : Type 0 where
  model_not_found surface_unsupported all_cooling capability_unsatisfied unsanctioned_free :
      RouteError

-- What the loop of `emptyReason` has seen.
pub record Seen : Type 0 where
  pub only_cooling : Bool
  pub saw_surface : Bool
  pub saw_capability : Bool
  pub saw_unsanctioned : Bool

unfoldable pub note_reason : Seen → SkipReason → Seen
note_reason s cooling = s
note_reason s surface = record s { only_cooling = false; saw_surface = true }
note_reason s adapter_surface = record s { only_cooling = false; saw_surface = true }
note_reason s capability = record s { only_cooling = false; saw_capability = true }
note_reason s unsanctioned = record s { only_cooling = false; saw_unsanctioned = true }
note_reason s _ = record s { only_cooling = false }

unfoldable pub note_all : Seen → List Skip → Seen
note_all s [] = s
note_all s (k ∷ ks) = note_all (note_reason s k.reason) ks

abbrev pub nothing_seen : Seen
nothing_seen = record {
  only_cooling = true;
  saw_surface = false;
  saw_capability = false;
  saw_unsanctioned = false;
}

unfoldable pub reason_of : Seen → RouteError
reason_of s =
    if s.only_cooling
    then all_cooling
    else if s.saw_unsanctioned
    then unsanctioned_free
    else if s.saw_surface
    then surface_unsupported
    else if s.saw_capability
    then capability_unsatisfied
    else model_not_found

unfoldable pub empty_reason : List Skip → RouteError
empty_reason [] = model_not_found
empty_reason (k ∷ ks) = reason_of (note_all nothing_seen (k ∷ ks))

unfoldable pub index_providers : List Provider → Map String Provider → Map String Provider
index_providers [] out = out
index_providers (p ∷ ps) out = index_providers ps (insert p.id p out)

unfoldable pub index_ids : List Provider → Map String Bool → Map String Bool
index_ids [] out = out
index_ids (p ∷ ps) out = index_ids ps (insert p.id true out)

abbrev pub alias_map : Snapshot → Map String (List String)
alias_map snap = elim snap.aliases [ none ↦ [] | some m ↦ m ]

-- The loop over the targets.
unfoldable pub filter_all :
    List Target → Query → Snapshot → Map String Provider → List Candidate × List Skip
filter_all [] q snap by_id = ([], [])
filter_all (t ∷ ts) q snap by_id =
    let (c, s, _) = filter_target t q snap by_id in
    let (cands, skips) = filter_all ts q snap by_id in (c ++ cands, s ++ skips)

-- The candidates, the skips and the error.
pub record Resolution : Type 0 where
  pub candidates : List Candidate
  pub skips : List Skip
  pub error : Option RouteError

unfoldable pub conclude : List Candidate → List Skip → Resolution
conclude [] skips = record { candidates = []; skips = skips; error = some (empty_reason skips) }
conclude (c ∷ cs) skips = record { candidates = c ∷ cs; skips = skips; error = none }

unfoldable pub resolve_targets : List Target → Query → Snapshot → Map String Provider → Resolution
resolve_targets [] q snap by_id = record {
  candidates = [];
  skips = [];
  error = some model_not_found;
}
resolve_targets (t ∷ ts) q snap by_id =
    let (cands, skips) = filter_all (t ∷ ts) q snap by_id in conclude cands skips

unfoldable pub targets_of : Query → Snapshot → List Target
targets_of q snap =
    (resolve_model q.model (alias_map snap) (index_ids snap.providers []) snap.catalog).0

unfoldable pub resolve : Query → Snapshot → Resolution
resolve q snap = resolve_targets (targets_of q snap) q snap (index_providers snap.providers [])

unfoldable pub matched_alias : String → Snapshot → String
matched_alias model snap = elim snap.aliases [ none ↦ "" | some aliases ↦ alias_for model aliases ]
