-- ===== src/Router/Resolve/Reasons.antt =====
-- `emptyReason` of internal/router/router.go against what the skips hold.
use darkrouter.Base.{
  ◌∙◌, ◌≡◌, refl, Bool, true, false, ◌&&◌, ◌||◌, List, [], ◌∷◌, arith, if◌then◌else◌,
}
use darkrouter.Router.Types.{
  Skip, SkipReason, cooling, surface, capability, adapter_surface, unsanctioned,
}
use darkrouter.Router.Resolve.{
  model_not_found, surface_unsupported, all_cooling, capability_unsatisfied, unsanctioned_free,
  Seen, note_reason, note_all, nothing_seen, reason_of, empty_reason,
}

abbrev pub is_cooling : SkipReason → Bool
is_cooling cooling = true
is_cooling _ = false

abbrev pub is_surface : SkipReason → Bool
is_surface surface = true
is_surface adapter_surface = true
is_surface _ = false

abbrev pub is_capability : SkipReason → Bool
is_capability capability = true
is_capability _ = false

abbrev pub is_unsanctioned : SkipReason → Bool
is_unsanctioned unsanctioned = true
is_unsanctioned _ = false

abbrev pub every : (SkipReason → Bool) → List Skip → Bool
every p [] = true
every p (k ∷ ks) = p k.reason && every p ks

abbrev pub any : (SkipReason → Bool) → List Skip → Bool
any p [] = false
any p (k ∷ ks) = p k.reason || any p ks

abbrev noted : Seen → List Skip → Seen
noted s ks = record {
  only_cooling = s.only_cooling && every is_cooling ks;
  saw_surface = s.saw_surface || any is_surface ks;
  saw_capability = s.saw_capability || any is_capability ks;
  saw_unsanctioned = s.saw_unsanctioned || any is_unsanctioned ks;
}

note_reason-noted :
    (s : Seen) (r : SkipReason) (ks : List Skip)
    → noted (note_reason s r) ks ≡ record {
      only_cooling = s.only_cooling && (is_cooling r && every is_cooling ks);
      saw_surface = s.saw_surface || (is_surface r || any is_surface ks);
      saw_capability = s.saw_capability || (is_capability r || any is_capability ks);
      saw_unsanctioned = s.saw_unsanctioned || (is_unsanctioned r || any is_unsanctioned ks);
    }
unfolding note_reason
note_reason-noted s r ks = ground arith

note_all-noted : (s : Seen) (ks : List Skip) → note_all s ks ≡ noted s ks
unfolding note_all
note_all-noted s [] = ground arith
note_all-noted s (k ∷ ks) =
    note_all-noted (note_reason s k.reason) ks ∙ note_reason-noted s k.reason ks

abbrev pub is_nil : List Skip → Bool
is_nil [] = true
is_nil (_ ∷ _) = false

-- The error for an empty candidate list: "cooling" only where it explains every skip, then the
-- one switch the operator can throw, then the surface, then a capability; and "not found" where
-- nothing was skipped or no skip is of these kinds.
pub empty_reason_lem :
    (skips : List Skip)
    → empty_reason skips ≡ (
        if is_nil skips
        then model_not_found
        else if every is_cooling skips
        then all_cooling
        else if any is_unsanctioned skips
        then unsanctioned_free
        else if any is_surface skips
        then surface_unsupported
        else if any is_capability skips
        then capability_unsatisfied
        else model_not_found)
unfolding empty_reason reason_of
empty_reason_lem [] = refl
empty_reason_lem (k ∷ ks) = rw (note_all-noted nothing_seen (k ∷ ks))
