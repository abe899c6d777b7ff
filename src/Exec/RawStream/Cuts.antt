-- ===== src/Exec/RawStream/Cuts.antt =====
-- The splitter hands on every byte, and cuts at the first boundary.
use darkrouter.Base.{
  ℕ, zero, suc, ◌+◌, ◌-◌, ◌≤◌, ◌<◌, true, List, [], ◌∷◌, ◌++◌, Option, none, some, drop, length,
  ◌==◌, ◌≡◌, refl, sym, ap, ◌∙◌, subst, arith, append_assoc, ◌↔◌, if_holds, option_holds,
}
use darkrouter.Exec.RawStream.{
  lf_pair, crlf_pair, further, first_of, event_end, take, EventSplitter, cut, push, flush, push_all,
}
use darkrouter.Sse.Lines.{Bytes}

-- A boundary is two bytes at least, and lies in the bytes.
abbrev pub Fits : ℕ → Option ℕ → Type 0
Fits len none = Unit
Fits len (some n) = (2 ≤ n) × (n ≤ len)

further-Fits :
    (k len more : ℕ) (o : Option ℕ) → k + len ≡ more → Fits len o → Fits more (further k o)
further-Fits k len more none e h = tt
further-Fits k len more (some n) e h = omega (arith, h)

first_of-Fits : (len : ℕ) (a b : Option ℕ) → Fits len a → Fits len b → Fits len (first_of a b)
first_of-Fits len none b h k = k
first_of-Fits len (some n) b h k = h

lf_pair-Fits : (d : ℕ) (cs : Bytes) → Fits (suc (suc (length cs))) (lf_pair d cs)
unfolding lf_pair
lf_pair-Fits d [] = ground arith
lf_pair-Fits d (c ∷ cs) = ground arith

crlf_pair-Fits : (cs : Bytes) → Fits (suc (suc (length cs))) (crlf_pair cs)
unfolding crlf_pair
crlf_pair-Fits [] = tt
crlf_pair-Fits (c ∷ []) = ground arith
crlf_pair-Fits (c ∷ d ∷ cs) = ground arith

event_end-Fits : (bytes : Bytes) → Fits (length bytes) (event_end bytes)
unfolding event_end
event_end-Fits [] = tt
event_end-Fits (c ∷ []) = tt
event_end-Fits (c ∷ d ∷ cs) =
    let len = suc (suc (length cs)) in
    let next =
      further-Fits 1 (suc (length cs)) len (event_end (d ∷ cs)) (omega arith)
        (event_end-Fits (d ∷ cs)) in
    let skip = further-Fits 2 (length cs) len (event_end cs) (omega arith) (event_end-Fits cs) in
    if_holds (Fits len) (c == b'\n') _ _
      (λ t. first_of-Fits len (lf_pair d cs) _ (lf_pair-Fits d cs) next)
      (λ t.
        if_holds (Fits len) (c == b'\r') _ _
          (λ u.
            if_holds (Fits len) (d == b'\n') _ _
              (λ v. first_of-Fits len (crlf_pair cs) _ (crlf_pair-Fits cs) skip)
              (λ v. if_holds (Fits len) (d == b'\r') _ _ (λ w. omega arith) (λ w. next)))
          (λ u. next))

take-drop : (n : ℕ) (bytes : Bytes) → take n bytes ++ drop n bytes ≡ bytes
take-drop zero bytes = refl
take-drop (suc n) [] = refl
take-drop (suc n) (c ∷ cs) = ap (λ l. c ∷ l) (take-drop n cs)

unfoldable pub concat : List Bytes → Bytes
concat [] = []
concat (e ∷ es) = e ++ concat es

length-drop : (n : ℕ) (bytes : Bytes) → length (drop n bytes) ≡ length bytes - n
length-drop zero bytes = omega arith
length-drop (suc n) [] = omega arith
length-drop (suc n) (c ∷ cs) = omega (arith, length-drop n cs)

-- What is handed on and what is left, together the bytes there were; and no event is left.
abbrev Exact : Bytes → List Bytes × Bytes → Type 0
Exact buf r = (concat r.0 ++ r.1 ≡ buf) × (event_end r.1 ≡ none)

cut-Exact : (fuel : ℕ) (buf : Bytes) → length buf ≤ fuel → Exact buf (cut fuel buf)
unfolding cut concat event_end
cut-Exact zero [] h = (refl, refl)
cut-Exact zero (c ∷ cs) h = absurd (omega arith)
cut-Exact (suc fuel) buf h =
    option_holds (Exact buf) (event_end buf) _ _ (λ e. (refl, e))
      (λ n e.
        let bounds = subst (Fits (length buf)) e (event_end-Fits buf) in
        let ih = cut-Exact fuel (drop n buf) (omega (arith, length-drop n buf, bounds)) in
        let rest = cut fuel (drop n buf) in
        (
          append_assoc (take n buf) (concat rest.0) rest.1
              ∙ ap (λ l. take n buf ++ l) ih.0
              ∙ take-drop n buf,
          ih.1,
        ))

-- What `push` hands on and what it holds back are, in this order, what it held back before and the
-- chunk; no whole event is held back; and the error is returned exactly when more is held back
-- than the cap, where there is one.
pub push_exact :
    (s : EventSplitter) (chunk : Bytes)
    → (concat (push s chunk).1 ++ (push s chunk).0.buf ≡ s.buf ++ chunk)
      × (event_end (push s chunk).0.buf ≡ none)
      × (((push s chunk).2 ≡ true) ↔ ((0 < s.max) × (s.max < length (push s chunk).0.buf)))
unfolding push
push_exact s chunk =
    let buf = s.buf ++ chunk in
    let exact = cut-Exact (length buf) buf (omega arith) in (exact.0, exact.1, ground arith)

pub concat-append : (xs ys : List Bytes) → concat (xs ++ ys) ≡ concat xs ++ concat ys
unfolding concat
concat-append [] ys = refl
concat-append (x ∷ xs) ys =
    ap (λ l. x ++ l) (concat-append xs ys) ∙ sym (append_assoc x (concat xs) (concat ys))

-- A forwarded stream reaches the client byte for byte, whatever the chunks in which it came: the
-- events that are handed on and the tail at the end are together the bytes that were read, after
-- what was held back when the reading began.
pub push_all_exact :
    (s : EventSplitter) (chunks : List Bytes) → concat (push_all s chunks) ≡ s.buf ++ concat chunks
unfolding push_all flush concat
push_all_exact s [] = refl
push_all_exact s (chunk ∷ chunks) =
    let t = (push s chunk).0 in
    let evs = (push s chunk).1 in
    concat-append evs (push_all t chunks)
    ∙ ap (λ l. concat evs ++ l) (push_all_exact t chunks)
    ∙ sym (append_assoc (concat evs) t.buf (concat chunks))
    ∙ ap (λ l. l ++ concat chunks) (push_exact s chunk).0
    ∙ append_assoc s.buf chunk (concat chunks)
