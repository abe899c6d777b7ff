-- ===== src/Sse/Reader/Joined.antt =====
-- How the joined data grows by a part.
use darkrouter.Base.{◌+◌, ◌≤◌, List, [], ◌∷◌, ◌++◌, length, ◌≡◌, arith, length-append}
use darkrouter.Sse.Lines.{Bytes}
use darkrouter.Sse.Writer.{join_lf}
use darkrouter.Sse.Reader.{joint}

pub length-join_lf-append :
    (ps : List Bytes) (v : Bytes)
    → length (join_lf (ps ++ (v ∷ []))) ≡ length (join_lf ps) + joint ps + length v
unfolding join_lf joint
length-join_lf-append [] v = omega arith
length-join_lf-append (p ∷ []) v = omega (arith, length-append {0} p (b'\n' ∷ v))
length-join_lf-append (p ∷ q ∷ ps) v = omega (
  arith,
  length-append {0} p (b'\n' ∷ join_lf (q ∷ (ps ++ (v ∷ [])))),
  length-append {0} p (b'\n' ∷ join_lf (q ∷ ps)),
  length-join_lf-append (q ∷ ps) v,
)

pub length-join_lf-le : (ps qs : List Bytes) → length (join_lf ps) ≤ length (join_lf (ps ++ qs))
unfolding join_lf
length-join_lf-le [] qs = omega arith
length-join_lf-le (p ∷ []) [] = omega arith
length-join_lf-le (p ∷ []) (q ∷ qs) = omega (arith, length-append {0} p (b'\n' ∷ join_lf (q ∷ qs)))
length-join_lf-le (p ∷ q ∷ ps) qs = omega (
  arith,
  length-append {0} p (b'\n' ∷ join_lf (q ∷ (ps ++ qs))),
  length-append {0} p (b'\n' ∷ join_lf (q ∷ ps)),
  length-join_lf-le (q ∷ ps) qs,
)
