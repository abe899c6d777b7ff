-- ===== src/Router/Examples.antt =====
-- The router's theorems at two providers, the second of them cooling on one key.
use darkrouter.Base.{pos, refl, String, true, false, [], ◌∷◌, none, All, string_eq}
use darkrouter.Catalog.Types.{no_traits, unpriced}
use darkrouter.Catalog.{
  inferred, unsanctioned as free_unsanctioned, Model, no_tier, discovered, live,
}
use darkrouter.Catalog.Index.{new_snapshot, reader_of}
use darkrouter.Health.Types.{cred_key_Eq}
use darkrouter.Provider.{Credential, Provider}
use darkrouter.Router.Names.Slash.{Splits}
use darkrouter.Router.Resolve.{resolve}
use darkrouter.Router.Resolve.Sound.{Eligible, resolve-Eligible}
use darkrouter.Router.Types.{Query, Snapshot, Skip, Target, cooling, surface}

abbrev credential : String → Credential
credential id = record { id = id; enabled = true }

abbrev acme : Provider
acme = record {
  id = "acme";
  kind = "openai";
  auth_style = "bearer";
  credentials = credential "k1" ∷ credential "k2" ∷ [];
  models = [];
  base_url = "";
  preset = "";
  allow_unsanctioned_free = false;
}

abbrev chat : Model
chat = record {
  provider_id = "acme";
  model_id = "m";
  publisher = "";
  surfaces = "llm" ∷ [];
  capabilities = record { tools = true; vision = false; reasoning = false; known = true };
  source = discovered;
  state = live;
  context_window = pos 0;
  max_output_tokens = pos 0;
  traits = no_traits;
  pricing = unpriced inferred;
  free_tier = no_tier;
}

abbrev query : Query
query = record {
  model = "m";
  surface = "llm";
  needs_tools = true;
  needs_vision = false;
  needs_reasoning = false;
}

-- The key "k1" is cooling for the model.
abbrev snap : Snapshot
snap = record {
  providers = acme ∷ [];
  catalog = reader_of (new_snapshot (chat ∷ []) ("acme" ∷ []));
  aliases = none;
  health = record {
    unavailable = record { provider_id = "acme"; key_id = "k1"; model = "m" } ∷ [];
  };
  last_used = [];
  adapter_surfaces = ("openai", "llm" ∷ []) ∷ [];
}

abbrev target : Target
target = record { provider_id = "acme"; model_id = "m" }

resolve-Eligible_example : All (Eligible query snap) (resolve query snap).candidates
resolve-Eligible_example = resolve-Eligible query snap

abbrev cooling_key : Skip
cooling_key = record { provider_id = "acme"; key_id = "k1"; model = "m"; reason = cooling }

abbrev no_surface : Skip
no_surface = record { provider_id = "acme"; key_id = ""; model = "m"; reason = surface }

llama-Splits : Splits "acme/meta/llama" "acme" "meta/llama"
llama-Splits = (refl, (refl, (refl, (refl, (refl, tt)))))
