-- ===== src/Catalog/Pricing/Trust.antt =====
-- A cost is as trustworthy as the weakest rate that it used.
use darkrouter.Base.{
  ℕ, ◌+◌, ◌≤◌, min, Bool, Option, none, some, ltb, ◌≡◌, ap, ◌∙◌, arith, if◌then◌else◌,
}
use darkrouter.Catalog.{Source, Grade, grade, measured, declared, indexed, guessed}
use darkrouter.Catalog.Types.{Pricing}
use darkrouter.Catalog.Pricing.{Tokens, grade_rank, weaker, price_grade, lowered, grade_for}

-- The rank of a filled rate, where it is used; the highest one otherwise.
abbrev pub filled_rank : Bool → Option Source → ℕ
filled_rank used none = 3
filled_rank used (some s) = if used then grade_rank (grade s) else 3

rank_max : (g : Grade) → grade_rank g ≤ 3
unfolding grade_rank
rank_max measured = omega arith
rank_max declared = omega arith
rank_max indexed = omega arith
rank_max guessed = omega arith

lowered_rank :
    (used : Bool) (o : Option Source) (g : Grade)
    → grade_rank (lowered used o g) ≡ min (grade_rank g) (filled_rank used o)
unfolding lowered weaker
lowered_rank used none g = ground (arith, rank_max g)
lowered_rank used (some s) g = ground (arith, rank_max g)

-- The grade of a cost ranks as the least of the price's own grade and of the grades of the two
-- cache rates, each where the request has tokens priced at a rate that was filled in.
pub grade_for_rank :
    (p : Pricing) (t : Tokens)
    → grade_rank (grade_for p t)
      ≡ min
          (min (grade_rank (price_grade p)) (filled_rank (ltb 0 t.cache_read) p.cache_read_source))
          (filled_rank
            (ltb (t.cache_write_5m + t.cache_write_1h) t.cache_write)
            p.cache_write_source)
unfolding grade_for
grade_for_rank p t =
    let read = ltb 0 t.cache_read in
    let write = ltb (t.cache_write_5m + t.cache_write_1h) t.cache_write in
    lowered_rank write p.cache_write_source (lowered read p.cache_read_source (price_grade p))
    ∙ ap (λ r. min r (filled_rank write p.cache_write_source))
        (lowered_rank read p.cache_read_source (price_grade p))
