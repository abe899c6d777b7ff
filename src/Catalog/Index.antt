-- ===== src/Catalog/Index.antt =====
-- internal/catalog/snapshot.go: the immutable index, an implementation of `Reader`. The models by
-- provider and id are one map over the pair.
pub mod Offers
use darkrouter.Base.{
  ◌≡◌, String, Bool, true, not, ◌&&◌, ◌||◌, List, [], ◌∷◌, ◌++◌, Option, none, some, Map, Eq,
  lookup, insert, str_eq, str_eq_iff, string_eq, if◌then◌else◌, arith, ◌↔◌,
}
use darkrouter.Catalog.{Model, Reader, routable}

pub record ModelKey : Type 0 where
  pub provider : String
  pub model : String

unfoldable pub model_key_eq : ModelKey → ModelKey → Bool
model_key_eq a b = str_eq a.provider b.provider && str_eq a.model b.model

pub model_key_eq_iff : (a b : ModelKey) → (model_key_eq a b ≡ true) ↔ (a ≡ b)
unfolding model_key_eq
model_key_eq_iff a b = ground (arith, str_eq_iff a.provider b.provider, str_eq_iff a.model b.model)

instance abbrev pub model_key_Eq : Eq ModelKey
model_key_Eq = record { beq = model_key_eq; beq_iff = model_key_eq_iff }

pub record Snapshot : Type 0 where
  pub by_provider : Map ModelKey Model
  pub offered : Map String (List String)
  pub models : List Model

abbrev pub or_nil : Option (List String) → List String
or_nil none = []
or_nil (some xs) = xs

-- m[k] = append(m[k], v)
unfoldable pub append_at : String → String → Map String (List String) → Map String (List String)
append_at k v m = insert k (or_nil (lookup k m) ++ v ∷ []) m

unfoldable pub index_models : List Model → Map ModelKey Model → Map ModelKey Model
index_models [] out = out
index_models (m ∷ ms) out =
    index_models ms (insert (record { provider = m.provider_id; model = m.model_id }) m out)

-- The inner loop of the offerings: the models of one provider.
unfoldable pub offer_provider :
    String → List Model → Map String (List String) → Map String (List String)
unfolding append_at
offer_provider pid [] out = out
offer_provider pid (m ∷ ms) out = offer_provider pid ms (
    if not (str_eq m.provider_id pid) || not (routable m)
    then out
    else append_at m.model_id pid out)

unfoldable pub offer_all :
    List String → List Model → Map String (List String) → Map String (List String)
unfolding offer_provider
offer_all [] models out = out
offer_all (pid ∷ order) models out = offer_all order models (offer_provider pid models out)

unfoldable pub new_snapshot : List Model → List String → Snapshot
unfolding index_models offer_all
new_snapshot models provider_order = record {
  by_provider = index_models models [];
  offered = offer_all provider_order models [];
  models = models;
}

unfoldable pub snapshot_lookup : Snapshot → String → String → Option Model
snapshot_lookup s provider_id model_id =
    lookup (record { provider = provider_id; model = model_id }) s.by_provider

unfoldable pub snapshot_offering : Snapshot → String → List String
snapshot_offering s model_id = or_nil (lookup model_id s.offered)

unfoldable pub reader_of : Snapshot → Reader
unfolding snapshot_lookup snapshot_offering
reader_of s = record { lookup_model = snapshot_lookup s; offering = snapshot_offering s }
