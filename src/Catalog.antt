-- ===== src/Catalog.antt =====
-- internal/catalog/catalog.go and internal/catalog/freecatalog.go: what a model is to the router.
pub mod Types
pub mod Preset
pub mod Join
pub mod Merge
pub mod Sync
pub mod Index
mod Examples
pub mod Pricing
pub mod Free
use darkrouter.Base.{
  String, Bool, true, false, not, ◌&&◌, ◌||◌, List, [], ◌∷◌, Option, str_eq, if◌then◌else◌,
}
pub use Types.{
  Source, models_dev, discovered, inferred, override, litellm, registry, other_source, Grade,
  measured, declared, indexed, guessed, Capabilities, FreeTier, no_tier, ModelState, live, stale,
  removed_upstream, other_state, Model,
}

unfoldable pub grade : Source → Grade
grade discovered = measured
grade override = declared
grade models_dev = indexed
grade litellm = indexed
grade registry = indexed
grade _ = guessed

unfoldable pub authoritative : Source → Bool
authoritative override = true
authoritative discovered = true
authoritative models_dev = true
authoritative _ = false

unfoldable pub satisfies : Capabilities → Capabilities → Bool
satisfies c need =
    if not c.known
    then true
    else if need.tools && not c.tools
    then false
    else if need.vision && not c.vision
    then false
    else if need.reasoning && not c.reasoning
    then false
    else true

unfoldable pub tier_live : FreeTier → Bool
tier_live t = not (str_eq t.free_type "discontinued")

unfoldable pub unsanctioned : FreeTier → Bool
unsanctioned t = str_eq t.tos "avoid"

unfoldable pub vetoed : FreeTier → Bool
unfolding tier_live unsanctioned
vetoed t = tier_live t && unsanctioned t

unfoldable pub state_routable : ModelState → Bool
state_routable removed_upstream = false
state_routable _ = true

unfoldable pub routable : Model → Bool
unfolding state_routable
routable m = state_routable m.state

unfoldable pub has_surface : List String → String → Bool
has_surface [] s = false
has_surface (have ∷ rest) s = str_eq have s || has_surface rest s

unfoldable pub declares_surface : Model → String → Bool
unfolding has_surface
declares_surface m s = has_surface m.surfaces s

-- `Reader`, the narrow view that the router needs.
pub record Reader : Type 0 where
  pub lookup_model : String → String → Option Model
  pub offering : String → List String
