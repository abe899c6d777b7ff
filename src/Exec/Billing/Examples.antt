-- ===== src/Exec/Billing/Examples.antt =====
-- A request whose first attempt failed with some tokens and whose second one served.
use darkrouter.Base.{ℕ, true, [], ◌∷◌, none, some, pos, ◌≡◌, ◌⊎◌, refl, All}
use darkrouter.Adapter.{Outcome, success, retryable_provider}
use darkrouter.Catalog.{Reader, Model, live, discovered, no_tier}
use darkrouter.Catalog.Types.{unpriced, no_traits, no_capabilities}
use darkrouter.Catalog.Pricing.{cost}
use darkrouter.Exec.Billing.{BilledRow, Bill, price_record, burned}
use darkrouter.Exec.Billing.Spent.{Earned, price_record-Earned}

abbrev model : Model
model = record {
  provider_id = "acme";
  model_id = "m";
  publisher = "";
  surfaces = "llm" ∷ [];
  capabilities = no_capabilities;
  source = discovered;
  state = live;
  context_window = pos 0;
  max_output_tokens = pos 0;
  traits = no_traits;
  pricing = record (unpriced discovered) { input_rate = pos 1000000; known = true };
  free_tier = no_tier;
}

abbrev catalog : Reader
catalog = record { lookup_model = λ p m. some model; offering = λ m. "acme" ∷ [] }

abbrev attempt : Outcome → ℕ → BilledRow
attempt outcome tokens = record {
  row = record {
    seq = 0;
    provider_id = "acme";
    key_id = "k";
    model = "m";
    outcome = outcome;
    status_code = 200;
    error = "";
    path = "ir";
    tokens_in = tokens;
    tokens_out = 0;
  };
  cost = none;
  price_grade = none;
}

abbrev bill : Bill
bill = record {
  rec = record {
    tokens_in = 5;
    tokens_out = 0;
    cache_read_tokens = 0;
    cache_write_tokens = 0;
    reasoning_tokens = 0;
    cache_write_5m_tokens = 0;
    cache_write_1h_tokens = 0;
    attempts = [];
    error_code = "";
  };
  final_provider_id = "acme";
  final_model = "m";
  cost = none;
  price_grade = none;
  rows = attempt retryable_provider 3 ∷ attempt success 0 ∷ [];
}

price_record-Earned_example :
    (((price_record (some catalog) bill).cost ≡ none) ⊎ (burned bill ≡ true))
    × All (Earned (burned bill)) (price_record (some catalog) bill).rows
price_record-Earned_example = price_record-Earned (some catalog) bill refl (refl, (refl, tt))
