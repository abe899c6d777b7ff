-- ===== src/Catalog/Index/Offers.antt =====
-- Which providers the index says offer a model, and in what order.
use darkrouter.Base.{
  String, Bool, ◌&&◌, List, [], ◌∷◌, ◌++◌, Map, lookup, string_eq, str_eq, str_eq_iff,
  if◌then◌else◌, ◌≡◌, refl, sym, ap, ◌∙◌, arith, Bool-cases, inl, inr, lookup-insert,
}
use darkrouter.Catalog.{Model, routable}
use darkrouter.Catalog.Index.{
  or_nil, append_at, offer_provider, offer_all, new_snapshot, snapshot_offering,
}

append_assoc : (xs ys zs : List String) → (xs ++ ys) ++ zs ≡ xs ++ (ys ++ zs)
append_assoc [] ys zs = refl
append_assoc (x ∷ xs) ys zs = ap (λ t. x ∷ t) (append_assoc xs ys zs)

append_none : (xs : List String) → xs ++ [] ≡ xs
append_none [] = refl
append_none (x ∷ xs) = ap (λ t. x ∷ t) (append_none xs)

-- The model is one that the provider offers under the id, and may be routed to.
abbrev pub is_offer : Model → String → String → Bool
is_offer m pid id = str_eq m.provider_id pid && (routable m && str_eq m.model_id id)

-- The provider, once for each of its models under the id.
abbrev pub offers_of : List Model → String → String → List String
offers_of [] pid id = []
offers_of (m ∷ ms) pid id =
    if is_offer m pid id then pid ∷ offers_of ms pid id else offers_of ms pid id

-- The providers of an order that offer the id.
abbrev pub offers_in : List String → List Model → String → List String
offers_in [] ms id = []
offers_in (pid ∷ order) ms id = offers_of ms pid id ++ offers_in order ms id

offered_append_at :
    (k v id : String) (out : Map String (List String))
    → or_nil (lookup id (append_at k v out))
      ≡ (if str_eq k id then or_nil (lookup id out) ++ (v ∷ []) else or_nil (lookup id out))
unfolding append_at
offered_append_at k v id out =
    ground (arith, lookup-insert k id (or_nil (lookup k out) ++ (v ∷ [])) out, str_eq_iff k id)

offered_provider :
    (pid id : String) (ms : List Model) (out : Map String (List String))
    → or_nil (lookup id (offer_provider pid ms out)) ≡ or_nil (lookup id out) ++ offers_of ms pid id
unfolding offer_provider
offered_provider pid id [] out = sym (append_none (or_nil (lookup id out)))
offered_provider pid id (m ∷ ms) out = elim (Bool-cases (str_eq m.provider_id pid && routable m)) [
  | inl t ↦ ground (
    arith,
    t,
    offered_provider pid id ms (append_at m.model_id pid out),
    offered_append_at m.model_id pid id out,
    append_assoc (or_nil (lookup id out)) (pid ∷ []) (offers_of ms pid id),
  )
  | inr f ↦ ground (arith, f, offered_provider pid id ms out)
]

offered_order :
    (order : List String) (id : String) (ms : List Model) (out : Map String (List String))
    → or_nil (lookup id (offer_all order ms out)) ≡ or_nil (lookup id out) ++ offers_in order ms id
unfolding offer_all
offered_order [] id ms out = sym (append_none (or_nil (lookup id out)))
offered_order (pid ∷ order) id ms out =
    offered_order order id ms (offer_provider pid ms out)
    ∙ (ap (λ t. t ++ offers_in order ms id) (offered_provider pid id ms out)
        ∙ append_assoc (or_nil (lookup id out)) (offers_of ms pid id) (offers_in order ms id))

-- The offering of an id in a fresh snapshot is the providers of the order, in the order's own
-- sequence, that have a routable model of that id.
pub snapshot_offering_lem :
    (models : List Model) (order : List String) (id : String)
    → snapshot_offering (new_snapshot models order) id ≡ offers_in order models id
unfolding snapshot_offering new_snapshot lookup
snapshot_offering_lem models order id = offered_order order id models []
