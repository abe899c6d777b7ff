-- ===== src/Catalog/Examples.antt =====
-- A free-only import of three models: one free by its name, one priced, one held back.
use darkrouter.Base.{
  pos, ltb, arith, ◌≡◌, String, true, false, List, [], ◌∷◌, none, some, All, str_eq,
}
use darkrouter.Catalog.{
  Model, ModelState, discovered, inferred, litellm, live, stale, removed_upstream, no_tier,
}
use darkrouter.Catalog.Index.{new_snapshot, snapshot_offering}
use darkrouter.Catalog.Index.Offers.{offers_in, snapshot_offering_lem}
use darkrouter.Catalog.Types.{Pricing, unpriced, no_traits}
use darkrouter.Catalog.Pricing.{Tokens}
use darkrouter.Catalog.Sync.{new_syncer, status}
use darkrouter.Catalog.Sync.Newest.{
  Call, begins, finishes, perform_all, new_world, Tells, NoLater, status_newest,
}
use darkrouter.Catalog.Free.{FreeRules, select_models_for_import}
use darkrouter.Catalog.Free.Kept.{Imported, import_keeps_allowed}

abbrev rules : FreeRules
rules = record {
  price = none;
  curated = none;
  keyless = true;
  unsanctioned = some (λ id. str_eq id "gray:free");
}

abbrev listed : List String
listed = "small:free" ∷ "large" ∷ "gray:free" ∷ []

import_keeps_allowed_example :
    let out = select_models_for_import (λ (id : String). id) listed true rules in
    Imported (λ (id : String). id) rules listed out.0 out.1
import_keeps_allowed_example = import_keeps_allowed (λ id. id) listed rules

abbrev served : String → ModelState → Model
served provider state = record {
  provider_id = provider;
  model_id = "m";
  publisher = "";
  surfaces = "llm" ∷ [];
  capabilities = record { tools = true; vision = false; reasoning = false; known = true };
  source = discovered;
  state = state;
  context_window = pos 0;
  max_output_tokens = pos 0;
  traits = no_traits;
  pricing = unpriced inferred;
  free_tier = no_tier;
}

abbrev models : List Model
models = served "acme" live ∷ served "globex" removed_upstream ∷ served "initech" stale ∷ []

snapshot_offering_lem_example :
    snapshot_offering (new_snapshot models ("initech" ∷ "globex" ∷ "acme" ∷ [])) "m"
    ≡ offers_in ("initech" ∷ "globex" ∷ "acme" ∷ []) models "m"
snapshot_offering_lem_example =
    snapshot_offering_lem models ("initech" ∷ "globex" ∷ "acme" ∷ []) "m"

abbrev price : Pricing
price = record (unpriced discovered) {
  input_rate = pos 3000000;
  output_rate = pos 15000000;
  cache_read_rate = pos 300000;
  known = true;
  cache_read_source = some litellm;
}

abbrev cached : Tokens
cached = record {
  input = 100;
  output = 7;
  cache_read = 40;
  cache_write = 0;
  cache_write_5m = 0;
  cache_write_1h = 0;
}

abbrev overlapping : List Call
overlapping = begins ∷ begins ∷ finishes 2 "" 10 ∷ finishes 1 "timeout" 20 ∷ []

status_newest_example :
    let (last, running) = status (perform_all overlapping new_world).syncer in
    Tells new_syncer.last last overlapping
    × All (NoLater last.run) overlapping
    × (running ≡ ltb 2 2)
status_newest_example =
    status_newest overlapping (omega arith)
      (omega arith, omega arith, (omega arith, omega arith, tt))
