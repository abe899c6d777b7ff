-- ===== src/Router/Resolve/Sound.antt =====
-- What a candidate of `Resolve` has passed: every check of internal/router/filter.go.
use darkrouter.Base.{
  ◌≡◌, refl, ◌∙◌, inl, inr, String, true, false, not, ◌&&◌, List, [], ◌∷◌, All, All-append, some,
  Map, lookup, insert, lookup-insert, string_eq, str_eq, str_eq_iff, Bool-cases, Option-cases,
  arith,
}
use darkrouter.Catalog.{Model, satisfies, declares_surface, routable, vetoed}
use darkrouter.Health.Availability.{frozen_available}
use darkrouter.Provider.{Credential, Provider}
use darkrouter.Router.Filter.{
  needs, cannot_render, keyless, key_of, candidate_of, admit_credentials, admit_target, check_model,
  check_provider, filter_target, no_key,
}
use darkrouter.Router.Order.{order_credentials}
use darkrouter.Router.Resolve.{
  index_providers, filter_all, conclude, resolve_targets, resolve, targets_of,
}
use darkrouter.Router.Types.{Query, Snapshot, Candidate, Skip, Target}

-- The target may be attempted: its provider is configured and offers the model on the surface,
-- the model is not retired, not held back, renderable and capable.
pub record Passes (q : Query) (snap : Snapshot) (p : Provider) (m : Model) : Type 0 where
  pub on_surface : declares_surface m q.surface ≡ true
  pub is_routable : routable m ≡ true
  pub is_sanctioned : (vetoed m.free_tier && not p.allow_unsanctioned_free) ≡ false
  pub can_render :
      (not (str_eq q.surface "") && cannot_render (lookup p.kind snap.adapter_surfaces) q.surface)
      ≡ false
  pub is_capable : satisfies m.capabilities (needs q) ≡ true

pub record Eligible (q : Query) (snap : Snapshot) (c : Candidate) : Type 0 where
  pub provider : Provider
  pub model : Model
  pub is_configured : lookup c.provider_id (index_providers snap.providers []) ≡ some provider
  pub is_offered : snap.catalog.lookup_model c.provider_id c.model ≡ some model
  pub passes : Passes q snap provider model
  pub is_available :
      frozen_available snap.health
        (record { provider_id = c.provider_id; key_id = c.key_id; model = c.model })
      ≡ true
  pub same_kind : c.kind ≡ provider.kind
  pub same_publisher : c.publisher ≡ model.publisher
  pub marks_guess : c.inferred ≡ not model.capabilities.known

module _ (q : Query) (snap : Snapshot) (p : Provider) (m : Model) (t : Target) where
  -- Of a candidate of this target, past the checks on the target.
  abbrev FromTarget : Candidate → Type 0
  FromTarget c =
      (c.provider_id ≡ p.id)
      × (c.model ≡ t.model_id)
      × (c.kind ≡ p.kind)
      × (c.publisher ≡ m.publisher)
      × (c.inferred ≡ not m.capabilities.known)
      × (frozen_available snap.health
            (record { provider_id = c.provider_id; key_id = c.key_id; model = c.model })
          ≡ true)

  admit_credentials-All :
      (cs : List Credential) → All FromTarget (admit_credentials snap p m t cs).0
  unfolding admit_credentials candidate_of key_of
  admit_credentials-All [] = tt
  admit_credentials-All (c ∷ cs) = elim (Bool-cases (frozen_available snap.health (key_of p c t))) [
    | inl e ↦ rw e ((refl, refl, refl, refl, refl, e), admit_credentials-All cs)
    | inr e ↦ rw e (admit_credentials-All cs)
  ]

  admit_target-All : (cs : List Credential) → All FromTarget (admit_target snap p m t cs).0
  unfolding admit_target
  admit_target-All [] = elim (Bool-cases (keyless p)) [
    | inl e ↦ rw e (admit_credentials-All (no_key ∷ []))
    | inr e ↦ rw e tt
  ]
  admit_target-All (c ∷ cs) = admit_credentials-All (c ∷ cs)

-- A property of the candidates of a target may rest on the checks that the target has passed.
check_model-All :
    (q : Query) (snap : Snapshot) (p : Provider) (m : Model) (t : Target) (P : Candidate → Type 0)
    → (Passes q snap p m
        → All P (admit_target snap p m t (order_credentials p.id p.credentials snap.last_used)).0)
    → All P (check_model snap q p m t).0
unfolding check_model
check_model-All q snap p m t P h = elim (Bool-cases (declares_surface m q.surface)) [
  | inr e ↦ rw e tt
  | inl on ↦ rw on (elim (Bool-cases (routable m)) [
    | inr e ↦ rw e tt
    | inl live ↦ rw live (elim (Bool-cases (vetoed m.free_tier && not p.allow_unsanctioned_free)) [
      | inl e ↦ rw e tt
      | inr free ↦
          rw free
            (elim (Bool-cases (
              not (str_eq q.surface "")
              && cannot_render (lookup p.kind snap.adapter_surfaces) q.surface)) [
                | inl e ↦ rw e tt
                | inr spoken ↦ rw spoken (elim (Bool-cases (satisfies m.capabilities (needs q))) [
                  | inr e ↦ rw e tt
                  | inl able ↦ rw able (
                      h (record {
                        on_surface = on;
                        is_routable = live;
                        is_sanctioned = free;
                        can_render = spoken;
                        is_capable = able;
                      }))
                ])
              ])
    ])
  ])
]

-- The map of the providers holds each under its own id.
index_providers-id :
    (ps : List Provider) (out : Map String Provider) (k : String) (p : Provider)
    → ((r : Provider) → lookup k out ≡ some r → r.id ≡ k)
    → lookup k (index_providers ps out) ≡ some p
    → p.id ≡ k
unfolding index_providers
index_providers-id [] out k p own h = own p h
index_providers-id (r ∷ ps) out k p own h = index_providers-id ps (insert r.id r out) k p kept h
  where
    kept : (s : Provider) → lookup k (insert r.id r out) ≡ some s → s.id ≡ k
    kept s e = ground (arith, lookup-insert r.id k r out, str_eq_iff r.id k, own s)

configured-id :
    (snap : Snapshot) (k : String) (p : Provider)
    → lookup k (index_providers snap.providers []) ≡ some p
    → p.id ≡ k
configured-id snap k p h = index_providers-id snap.providers [] k p (λ r e. unfold lookup in cc) h

All-map :
    (P R : Candidate → Type 0)
    → ((c : Candidate) → P c → R c)
    → (cs : List Candidate) → All P cs
    → All R cs
All-map P R f [] h = tt
All-map P R f (c ∷ cs) h = (f c h.0, All-map P R f cs h.1)

Eligible-of :
    (q : Query) (snap : Snapshot) (p : Provider) (m : Model) (t : Target)
    → lookup t.provider_id (index_providers snap.providers []) ≡ some p
    → snap.catalog.lookup_model t.provider_id t.model_id ≡ some m
    → Passes q snap p m
    → (c : Candidate) → FromTarget q snap p m t c
    → Eligible q snap c
Eligible-of q snap p m t found offered ok c f =
    let own : c.provider_id ≡ t.provider_id = f.0 ∙ configured-id snap t.provider_id p found in
    record {
      provider = p;
      model = m;
      is_configured = rw own found;
      is_offered = rw (own, f.1) offered;
      passes = ok;
      is_available = f.5;
      same_kind = f.2;
      same_publisher = f.3;
      marks_guess = f.4;
    }

filter_target-Eligible :
    (q : Query) (snap : Snapshot) (t : Target)
    → All (Eligible q snap) (filter_target t q snap (index_providers snap.providers [])).0
unfolding filter_target check_provider
filter_target-Eligible q snap t =
    elim (Option-cases (lookup t.provider_id (index_providers snap.providers []))) [
      | inl e ↦ rw (e, filter_target) tt
      | inr (p, found) ↦ elim (Option-cases (snap.catalog.lookup_model t.provider_id t.model_id)) [
        | inl e ↦ rw (found, filter_target) (rw (e, check_provider) tt)
        | inr (m, offered) ↦
            rw (found, filter_target)
              (rw (offered, check_provider)
                (check_model-All q snap p m t (Eligible q snap) (λ ok.
                  All-map (FromTarget q snap p m t) (Eligible q snap)
                    (Eligible-of q snap p m t found offered ok) _
                    (admit_target-All q snap p m t
                      (order_credentials p.id p.credentials snap.last_used)))))
      ]
    ]

filter_all-Eligible :
    (q : Query) (snap : Snapshot) (ts : List Target)
    → All (Eligible q snap) (filter_all ts q snap (index_providers snap.providers [])).0
unfolding filter_all
filter_all-Eligible q snap [] = tt
filter_all-Eligible q snap (t ∷ ts) =
    All-append (Eligible q snap) _ _ (filter_target-Eligible q snap t)
      (filter_all-Eligible q snap ts)

conclude-All :
    (P : Candidate → Type 0) (cs : List Candidate) (ks : List Skip)
    → All P cs
    → All P (conclude cs ks).candidates
unfolding conclude
conclude-All P [] ks h = tt
conclude-All P (c ∷ cs) ks h = h

resolve_targets-Eligible :
    (q : Query) (snap : Snapshot) (ts : List Target)
    → All
        (Eligible q snap)
        (resolve_targets ts q snap (index_providers snap.providers [])).candidates
unfolding resolve_targets
resolve_targets-Eligible q snap [] = tt
resolve_targets-Eligible q snap (t ∷ ts) =
    conclude-All (Eligible q snap) _ _ (filter_all-Eligible q snap (t ∷ ts))

-- Every candidate is one that may be attempted: its provider is configured, its model is offered
-- there on the surface, routable, sanctioned, renderable and capable of what the query needs, the
-- triple was available at the snapshot, and it carries its provider's kind, its model's publisher
-- and whether the model's capabilities are a guess.
pub resolve-Eligible :
    (q : Query) (snap : Snapshot) → All (Eligible q snap) (resolve q snap).candidates
unfolding resolve
resolve-Eligible q snap = resolve_targets-Eligible q snap (targets_of q snap)
