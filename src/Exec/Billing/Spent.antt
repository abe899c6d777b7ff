-- ===== src/Exec/Billing/Spent.antt =====
-- No attempt is billed for nothing.
use darkrouter.Base.{
  Bool, true, false, not, ◌&&◌, ◌||◌, List, [], ◌∷◌, Option, none, some, str_eq, ◌≡◌, ◌⊎◌, inl, inr,
  refl, arith, All, if_holds, option_holds, subst, sym, ap,
}
use darkrouter.Adapter.{is_success}
use darkrouter.Catalog.{Reader}
use darkrouter.Exec.Attempt.{burned_nothing}
use darkrouter.Exec.Billing.{
  BilledRow, Bill, burned, price_request, unspent, fill_served, serve_rows, price_row, price_rows,
  price_record, is_none,
}

-- The row has no cost, or tokens of its own, or it is the one that served.
abbrev pub Earned : Bool → BilledRow → Type 0
Earned spent a =
    (a.cost ≡ none)
    ⊎ ((unspent a.row ≡ false) ⊎ ((is_success a.row.outcome ≡ true) × (spent ≡ true)))

abbrev pub Unbilled : List BilledRow → Type 0
Unbilled = All (λ a. a.cost ≡ none)

Unbilled-Earned : (spent : Bool) (rows : List BilledRow) → Unbilled rows → All (Earned spent) rows
Unbilled-Earned spent [] h = tt
Unbilled-Earned spent (a ∷ more) h = (inl h.0, Unbilled-Earned spent more h.1)

fill_served-Earned :
    (b : Bill) (a : BilledRow)
    → a.cost ≡ none
    → is_success a.row.outcome ≡ true
    → Earned (burned b) (fill_served b a)
unfolding fill_served
fill_served-Earned b a h s =
    option_holds (Earned (burned b)) b.cost _ _ (λ _. inl h)
      (λ c f. if_holds (Earned (burned b)) (burned b) _ _ (λ e. inr (inr (s, e))) (λ e. inl h))

serve_rows-Earned :
    (b : Bill) (rows : List BilledRow) → Unbilled rows → All (Earned (burned b)) (serve_rows b rows)
unfolding serve_rows
serve_rows-Earned b [] h = tt
serve_rows-Earned b (a ∷ more) h =
    if_holds (All (Earned (burned b))) (is_success a.row.outcome && unspent a.row) _ _
      (λ e. (fill_served-Earned b a h.0 (ground arith), Unbilled-Earned (burned b) more h.1))
      (λ e. (inl h.0, serve_rows-Earned b more h.1))

price_row-Earned :
    (cat : Reader) (spent : Bool) (a : BilledRow) → Earned spent a → Earned spent (price_row cat a)
unfolding price_row
price_row-Earned cat spent a h =
    if_holds (Earned spent)
      (not (is_none a.cost) || (str_eq a.row.provider_id "" || str_eq a.row.model "")) _ _ (λ _. h)
      (λ _.
        if_holds (Earned spent) (unspent a.row) _ _ (λ _. h)
          (λ e.
            option_holds (Earned spent) (cat.lookup_model a.row.provider_id a.row.model) _ _
              (λ _. h) (λ m _. inr (inl e))))

price_rows-Earned :
    (cat : Reader) (spent : Bool) (rows : List BilledRow)
    → All (Earned spent) rows
    → All (Earned spent) (price_rows cat rows)
unfolding price_rows
price_rows-Earned cat spent [] h = tt
price_rows-Earned cat spent (a ∷ more) h =
    (price_row-Earned cat spent a h.0, price_rows-Earned cat spent more h.1)

-- What pricing the request leaves alone, and when it sets a cost.
abbrev Priced : Bill → Bill → Type 0
Priced b p = (p.rec ≡ b.rec) × (p.rows ≡ b.rows) × ((p.cost ≡ none) ⊎ (burned b ≡ true))

price_request-Priced : (cat : Reader) (b : Bill) → b.cost ≡ none → Priced b (price_request cat b)
unfolding price_request
price_request-Priced cat b h =
    if_holds (Priced b)
      (is_none b.cost
        && (burned b && (not (str_eq b.final_provider_id "") && not (str_eq b.final_model ""))))
      _ _
      (λ e.
        option_holds (Priced b) (cat.lookup_model b.final_provider_id b.final_model) _ _
          (λ _. (refl, refl, inl h)) (λ m _. (refl, refl, inr (ground arith))))
      (λ e. (refl, refl, inl h))

-- A request that reported no usage has no cost, not a cost of zero. An attempt has one only if it
-- has tokens of its own, or succeeded in a request that burned some.
pub price_record-Earned :
    (cat : Option Reader) (b : Bill)
    → b.cost ≡ none
    → Unbilled b.rows
    → (((price_record cat b).cost ≡ none) ⊎ (burned b ≡ true))
      × All (Earned (burned b)) (price_record cat b).rows
unfolding price_record
price_record-Earned none b h u = (inl h, Unbilled-Earned (burned b) b.rows u)
price_record-Earned (some cat) b h u =
    let (rec, rows, spent) = price_request-Priced cat b h in
    let p = price_request cat b in
    let served = serve_rows-Earned p p.rows (subst Unbilled (sym rows) u) in
    let same : burned p ≡ burned b = unfold burned in ap (λ r. not (burned_nothing r)) rec in
    (
      spent,
      price_rows-Earned cat (burned b) (serve_rows p p.rows)
          (subst (λ t. All (Earned t) (serve_rows p p.rows)) same served),
    )
