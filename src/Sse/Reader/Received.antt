-- ===== src/Sse/Reader/Received.antt =====
-- What `Next` makes of the bytes that `Send` writes, within the cap on lines and events and past it.
use darkrouter.Base.{
  ℕ, ◌≤◌, ◌<◌, true, List, [], ◌∷◌, ◌++◌, length, append_assoc, dec_lt, ◌≡◌, ◌≢◌, refl, sym, ap,
  ◌∙◌, subst, arith, All, All-append, ◌⊎◌, inl, inr, Option-cases,
}
use darkrouter.Sse.Lines.{Bytes, lines}
use darkrouter.Sse.Lines.Turns.{Inside, lines-line, lines_long}
use darkrouter.Sse.Writer.{split_lf, data_prefix, event_prefix, data_lines, event_line, send}
use darkrouter.Sse.Writer.Split.{split_lf-Inside, split_lf-cons}
use darkrouter.Sse.Reader.{
  Pending, Result, got, event_too_long, line_too_long, nothing_pending, take_data, next, next_event,
}
use darkrouter.Sse.Reader.RoundTrip.{
  Fits, NameFits, next_event-Fits, next_data, next_event_name, data_prefix-Inside, event_name_line,
  send_shape,
}

-- One of the two errors on what is too long.
abbrev pub IsRefused : Result → Type 0
IsRefused r = (r ≡ line_too_long) ⊎ (r ≡ event_too_long)

-- Every line that `Send` writes fits into the cap with its LF.
abbrev pub LinesFit : ℕ → Bytes → Bytes → Type 0
LinesFit max event text = NameFits max event × All (Fits max) (split_lf text)

-- What comes of an event that was sent.
pub data Received (max : ℕ) (event text rest : Bytes) (r : Result) : Type 0 where
  received :
      LinesFit max event text
      → length text ≤ max
      → r ≡ got (record { event_type = event; text = text; id = []; retry = [] }) (lines max rest)
      → Received max event text rest r
  long_event :
      LinesFit max event text
      → max < length text
      → r ≡ event_too_long
      → Received max event text rest r
  long_line : ¬ LinesFit max event text → IsRefused r → Received max event text rest r

all_fit : (max : ℕ) (ls : List Bytes) → All (Fits max) ls ⊎ (¬ All (Fits max) ls)
all_fit max [] = inl tt
all_fit max (l ∷ ls) = elim (dec_lt (length (data_prefix ++ l)) max) [
  | no n ↦ inr (λ h. n h.0)
  | yes y ↦ elim (all_fit max ls) [ inl a ↦ inl (y, a) | inr a ↦ inr (λ h. a h.1) ]
]

name_fits : (max : ℕ) (event : Bytes) → NameFits max event ⊎ (¬ NameFits max event)
name_fits max [] = inl tt
name_fits max (c ∷ cs) = elim (dec_lt (length (event_prefix ++ (c ∷ cs))) max) [
  | no n ↦ inr n
  | yes y ↦ inl y
]

next_line-IsRefused :
    (max : ℕ) (p : Pending) (l rest : Bytes)
    → All Inside l
    → max ≤ length l
    → IsRefused (next max p (lines max (l ++ (b'\n' ∷ rest))))
unfolding next
next_line-IsRefused max p l rest h k = inl (ap (next max p) (lines_long max l rest h k))

next_body-IsRefused :
    (max : ℕ) (ls : List Bytes) (p : Pending) (rest : Bytes)
    → All (All Inside) ls
    → ¬ All (Fits max) ls
    → IsRefused (next max p (lines max (data_lines ls ++ (b'\n' ∷ rest))))
unfolding data_lines
next_body-IsRefused max [] p rest h f = absurd (f tt)
next_body-IsRefused max (l ∷ ls) p rest h f =
    let more = data_lines ls ++ (b'\n' ∷ rest) in
    let inside = data_prefix-Inside l h.0 in
    let shape = append_assoc l (b'\n' ∷ data_lines ls) (b'\n' ∷ rest) in
    subst (λ t. IsRefused (next max p (lines max (data_prefix ++ t)))) (sym shape)
      (elim (dec_lt (length (data_prefix ++ l)) max) [
        | no n ↦ next_line-IsRefused max p (data_prefix ++ l) more inside (omega (arith, n))
        | yes y ↦
            let read = lines-line max (data_prefix ++ l) more inside y in
            subst IsRefused (sym (ap (next max p) read ∙ next_data max p l (lines max more)))
              (elim (Option-cases (take_data max (record p { seen = true }) l)) [
                | inl e ↦ rw e (inr refl)
                | inr (q, e) ↦ rw e (next_body-IsRefused max ls q rest h.1 (λ a. f (y, a)))
              ])
      ])

next_event-IsRefused :
    (max : ℕ) (event text rest : Bytes)
    → All Inside event
    → All (λ c. c ≢ b'\r') text
    → ¬ LinesFit max event text
    → IsRefused (next_event max (lines max (send event text ++ rest)))
unfolding next_event event_line
next_event-IsRefused max [] text rest h k f =
    subst (λ t. IsRefused (next max nothing_pending (lines max t))) (sym (send_shape [] text rest))
      (next_body-IsRefused max (split_lf text) nothing_pending rest (split_lf-Inside text k)
        (λ a. f (tt, a)))
next_event-IsRefused max (c ∷ cs) text rest h k f =
    let more = data_lines (split_lf text) ++ (b'\n' ∷ rest) in
    subst (λ t. IsRefused (next max nothing_pending (lines max t)))
      (sym (send_shape (c ∷ cs) text rest))
      (elim (name_fits max (c ∷ cs)) [
        | inr n ↦
            let inside = All-append Inside event_prefix (c ∷ cs) (omega arith) h in
            subst (λ t. IsRefused (next max nothing_pending (lines max (event_prefix ++ t))))
              (sym (append_assoc (c ∷ cs) (b'\n' ∷ []) more))
              (next_line-IsRefused max nothing_pending (event_prefix ++ (c ∷ cs)) more inside
                (omega (arith, n)))
        | inl y ↦
            subst IsRefused
              (sym (
                ap (next max nothing_pending) (event_name_line max c cs more h y)
                ∙ next_event_name max nothing_pending (c ∷ cs) (lines max more)))
              (next_body-IsRefused max (split_lf text) _ rest (split_lf-Inside text k)
                (λ a. f (y, a)))
      ])

-- `Next` gives back the event that `Send` wrote, its data byte for byte, and leaves the rest of the
-- stream as it was, if each line that was written fits with its LF into the maximum, and so does the
-- data. Otherwise it gives no event, but one of the two errors, and where the lines fit and only the
-- data does not, the one on a long event. The event's name holds no CR and no LF, and the data no CR.
pub next_event-send :
    (max : ℕ) (event text rest : Bytes)
    → All Inside event
    → All (λ c. c ≢ b'\r') text
    → Received max event text rest (next_event max (lines max (send event text ++ rest)))
next_event-send max event text rest h k = elim (name_fits max event) [
  | inr n ↦ long_line (λ f. n f.0) (next_event-IsRefused max event text rest h k (λ f. n f.0))
  | inl n ↦ elim (all_fit max (split_lf text)) [
    | inr a ↦ long_line (λ f. a f.1) (next_event-IsRefused max event text rest h k (λ f. a f.1))
    | inl a ↦
        let whole = next_event-Fits max event text rest h k (positive a) n a in
        elim (dec_lt max (length text)) [
          | no l ↦ received (n, a) (omega (arith, l)) (whole ∙ ground (arith, l))
          | yes l ↦ long_event (n, a) l (whole ∙ ground (arith, l))
        ]
  ]
]
  where
    positive : All (Fits max) (split_lf text) → 0 < max
    positive a =
        let (l, ls, e) = split_lf-cons text in
        let first = subst (All (Fits max)) e a in omega (arith, first.0)
