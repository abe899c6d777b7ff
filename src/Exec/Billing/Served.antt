-- ===== src/Exec/Billing/Served.antt =====
-- The attempt that served carries the request's usage and cost.
use darkrouter.Base.{Bool, false, ◌&&◌, List, ◌≡◌, All}
use darkrouter.Adapter.{is_success}
use darkrouter.Exec.Billing.{BilledRow, Bill, unspent}

-- The row is the one that the request's usage goes to.
abbrev pub serves : BilledRow → Bool
serves a = is_success a.row.outcome && unspent a.row

abbrev pub NoneServes : List BilledRow → Type 0
NoneServes = All (λ a. serves a ≡ false)

-- The row with the usage, the cost and the grade of the request.
abbrev pub charged : Bill → BilledRow → BilledRow
charged b a = record a {
  row = record (a.row) { tokens_in = b.rec.tokens_in; tokens_out = b.rec.tokens_out };
  cost = b.cost;
  price_grade = b.price_grade;
}

abbrev KeepsRows : Bill → Bill → Type 0
KeepsRows b p = (p.rows ≡ b.rows) × (p.rec ≡ b.rec)
