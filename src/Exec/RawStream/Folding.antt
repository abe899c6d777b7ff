-- ===== src/Exec/RawStream/Folding.antt =====
-- What `mergeUsage` makes of the usages of a stream.
use darkrouter.Base.{
  ℕ, List, [], ◌∷◌, Option, none, some, ltb, if◌then◌else◌, ◌≡◌, refl, ap, ◌∙◌, arith,
}
use darkrouter.Exec.RawStream.{larger, merge_usage}
use darkrouter.Ir.{Usage}

unfoldable pub merge_all : Usage → List (Option Usage) → Usage
unfolding merge_usage
merge_all u [] = u
merge_all u (v ∷ vs) = merge_all (merge_usage u v) vs

-- The last count above zero that a stream reports.
abbrev or_here : Option ℕ → ℕ → Option ℕ
or_here (some n) m = some n
or_here none m = if ltb 0 m then some m else none

unfoldable pub last_reported : (Usage → ℕ) → List (Option Usage) → Option ℕ
last_reported count [] = none
last_reported count (none ∷ vs) = last_reported count vs
last_reported count (some u ∷ vs) = or_here (last_reported count vs) (count u)

abbrev pub or_known : Option ℕ → ℕ → ℕ
or_known none known = known
or_known (some n) known = n

or_known-or_here :
    (o : Option ℕ) (m known : ℕ) → or_known o (larger known m) ≡ or_known (or_here o m) known
or_known-or_here none m known = ground arith
or_known-or_here (some n) m known = refl

merge_count :
    (count : Usage → ℕ)
    → ((u v : Usage) → count (merge_usage u (some v)) ≡ larger (count u) (count v))
    → (u : Usage) (vs : List (Option Usage))
    → count (merge_all u vs) ≡ or_known (last_reported count vs) (count u)
unfolding merge_all last_reported
merge_count count h u [] = refl
merge_count count h u (none ∷ vs) = merge_count count h u vs
merge_count count h u (some v ∷ vs) =
    merge_count count h (merge_usage u (some v)) vs
    ∙ ap (or_known (last_reported count vs)) (h u v)
    ∙ or_known-or_here (last_reported count vs) (count v) (count u)

merge_estimated : (u : Usage) (vs : List (Option Usage)) → (merge_all u vs).estimated ≡ u.estimated
unfolding merge_all merge_usage
merge_estimated u [] = refl
merge_estimated u (none ∷ vs) = merge_estimated u vs
merge_estimated u (some v ∷ vs) = merge_estimated (merge_usage u (some v)) vs

-- Folding the usages of a stream gives, for every count, the last one above zero that the stream
-- reported, and where it reported none the one known before: a later zero erases nothing, and the
-- counts that come in different events all stay.
pub merge_all_reports :
    (u : Usage) (vs : List (Option Usage))
    → merge_all u vs ≡ record u {
      input_tokens = or_known (last_reported (λ v. v.input_tokens) vs) u.input_tokens;
      output_tokens = or_known (last_reported (λ v. v.output_tokens) vs) u.output_tokens;
      cache_read_tokens =
          or_known (last_reported (λ v. v.cache_read_tokens) vs) u.cache_read_tokens;
      cache_write_tokens =
          or_known (last_reported (λ v. v.cache_write_tokens) vs) u.cache_write_tokens;
      cache_write_5m_tokens =
          or_known (last_reported (λ v. v.cache_write_5m_tokens) vs) u.cache_write_5m_tokens;
      cache_write_1h_tokens =
          or_known (last_reported (λ v. v.cache_write_1h_tokens) vs) u.cache_write_1h_tokens;
      reasoning_tokens = or_known (last_reported (λ v. v.reasoning_tokens) vs) u.reasoning_tokens;
    }
unfolding merge_usage
merge_all_reports u vs = ground (
  arith,
  merge_count (λ v. v.input_tokens) (λ x y. refl) u vs,
  merge_count (λ v. v.output_tokens) (λ x y. refl) u vs,
  merge_count (λ v. v.cache_read_tokens) (λ x y. refl) u vs,
  merge_count (λ v. v.cache_write_tokens) (λ x y. refl) u vs,
  merge_count (λ v. v.cache_write_5m_tokens) (λ x y. refl) u vs,
  merge_count (λ v. v.cache_write_1h_tokens) (λ x y. refl) u vs,
  merge_count (λ v. v.reasoning_tokens) (λ x y. refl) u vs,
  merge_estimated u vs,
)
