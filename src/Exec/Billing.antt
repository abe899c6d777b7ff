-- ===== src/Exec/Billing.antt =====
-- internal/exec/exec.go, `priceRecord`: what a finished request and each of its attempts cost. The
-- fields that it reads and writes beside those of the record of `Exec.Attempt` are added here; a
-- cost is `none` where it is nil, and the empty grade is `none`.
pub mod Spent
pub mod Served
mod Examples
use darkrouter.Base.{
  ℕ, String, Bool, true, false, not, ◌&&◌, ◌||◌, List, [], ◌∷◌, Option, none, some, ℤ, ◌==◌, str_eq,
  if◌then◌else◌,
}
use darkrouter.Adapter.{is_success}
use darkrouter.Catalog.{Grade, Reader, Model}
use darkrouter.Catalog.Pricing.{Tokens, cost, cost_micros, grade_for, price_grade}
use darkrouter.Exec.Attempt.{Row, RequestRecord, burned_nothing}

pub record BilledRow : Type 0 where
  pub row : Row
  pub cost : Option ℤ
  pub price_grade : Option Grade

pub record Bill : Type 0 where
  pub rec : RequestRecord
  pub final_provider_id : String
  pub final_model : String
  pub cost : Option ℤ
  pub price_grade : Option Grade
  pub rows : List BilledRow

unfoldable pub burned : Bill → Bool
burned b = not (burned_nothing b.rec)

unfoldable pub tokens_of : RequestRecord → Tokens
tokens_of r = record {
  input = r.tokens_in;
  output = r.tokens_out;
  cache_read = r.cache_read_tokens;
  cache_write = r.cache_write_tokens;
  cache_write_5m = r.cache_write_5m_tokens;
  cache_write_1h = r.cache_write_1h_tokens;
}

abbrev pub is_none {ℓ} : {A : Type ℓ} → Option A → Bool
is_none none = true
is_none (some _) = false

abbrev pub when_priced : Option ℤ → Grade → Option Grade → Option Grade
when_priced none g old = old
when_priced (some _) g old = some g

-- The cost of the request, from the model that served.
unfoldable pub price_request : Reader → Bill → Bill
unfolding burned tokens_of
price_request cat b =
    if is_none b.cost
      && (burned b && (not (str_eq b.final_provider_id "") && not (str_eq b.final_model "")))
    then (elim (cat.lookup_model b.final_provider_id b.final_model) [
      | none ↦ b
      | some m ↦ record b {
        cost = cost m.pricing (tokens_of b.rec);
        price_grade =
            when_priced (cost m.pricing (tokens_of b.rec)) (grade_for m.pricing (tokens_of b.rec))
              b.price_grade;
      }
    ])
    else b

unfoldable pub unspent : Row → Bool
unspent r = r.tokens_in == 0 && r.tokens_out == 0

-- The row of the attempt that served has the usage of the request, and its cost if it burned any.
unfoldable pub fill_served : Bill → BilledRow → BilledRow
unfolding burned
fill_served b a =
    let filled = record a {
      row = record (a.row) { tokens_in = b.rec.tokens_in; tokens_out = b.rec.tokens_out };
    } in
    elim b.cost [
      | none ↦ filled
      | some c ↦
          if burned b then record filled { cost = some c; price_grade = b.price_grade } else filled
    ]

-- The first row that succeeded and has no tokens.
unfoldable pub serve_rows : Bill → List BilledRow → List BilledRow
unfolding unspent fill_served
serve_rows b [] = []
serve_rows b (a ∷ more) =
    let rest = serve_rows b more in
    if is_success a.row.outcome && unspent a.row then fill_served b a ∷ more else a ∷ rest

-- An attempt is priced by the model that it tried.
unfoldable pub price_row : Reader → BilledRow → BilledRow
unfolding unspent
price_row cat a =
    if not (is_none a.cost) || (str_eq a.row.provider_id "" || str_eq a.row.model "")
    then a
    else if unspent a.row
    then a
    else (elim (cat.lookup_model a.row.provider_id a.row.model) [
      | none ↦ a
      | some m ↦ record a {
        cost = cost_micros m.pricing a.row.tokens_in a.row.tokens_out 0 0;
        price_grade =
            when_priced (cost_micros m.pricing a.row.tokens_in a.row.tokens_out 0 0)
              (price_grade m.pricing) a.price_grade;
      }
    ])

unfoldable pub price_rows : Reader → List BilledRow → List BilledRow
unfolding price_row
price_rows cat [] = []
price_rows cat (a ∷ more) = price_row cat a ∷ price_rows cat more

-- With no catalog there is nothing to price by.
unfoldable pub price_record : Option Reader → Bill → Bill
unfolding price_request serve_rows price_rows
price_record none b = b
price_record (some cat) b =
    let priced = price_request cat b in
    record priced { rows = price_rows cat (serve_rows priced priced.rows) }
