-- ===== src/Sse/Reader/RoundTrip.antt =====
-- What `Next` makes of the bytes that `Send` writes.
use darkrouter.Base.{
  ℕ, ◌+◌, ◌≤◌, ◌<◌, Bool, true, false, List, [], ◌∷◌, ◌++◌, Option, none, some, length, leb,
  append-nil, append_assoc, dec_lt, ◌≡◌, ◌≢◌, refl, sym, ap, ◌∙◌, subst, arith, All, All-append,
  if◌then◌else◌,
}
use darkrouter.Sse.Lines.{Bytes, lines}
use darkrouter.Sse.Lines.Turns.{Inside, lines-line}
use darkrouter.Sse.Writer.{
  join_lf, split_lf, data_prefix, event_prefix, data_lines, event_line, send,
}
use darkrouter.Sse.Writer.Split.{split_lf-Inside, split_lf-cons, join-split_lf}
use darkrouter.Sse.Reader.{
  Event, Pending, Result, got, event_too_long, no_event, nothing_pending, joint, take_data, next,
  next_event,
}
use darkrouter.Sse.Reader.Joined.{length-join_lf-append, length-join_lf-le}

-- The blank line that ends an event, behind its data lines.
abbrev pub body : List Bytes → List (Option Bytes) → List (Option Bytes)
body [] more = some [] ∷ more
body (l ∷ ls) more = some (data_prefix ++ l) ∷ body ls more

-- The data line that is read when the event is being collected.
pub next_data :
    (max : ℕ) (p : Pending) (v : Bytes) (more : List (Option Bytes))
    → next max p (some (data_prefix ++ v) ∷ more)
      ≡ elim (take_data max (record p { seen = true }) v) [
        | none ↦ event_too_long
        | some q ↦ next max q more
      ]
unfolding next
next_data max p v more = refl

pub next_event_name :
    (max : ℕ) (p : Pending) (v : Bytes) (more : List (Option Bytes))
    → next max p (some (event_prefix ++ v) ∷ more)
      ≡ next max (record p { seen = true; ev = record p.ev { event_type = v } }) more
unfolding next
next_event_name max p v more = refl

-- The blank line dispatches only where a field was seen.
abbrev Started : Bool → List Bytes → Type 0
Started seen [] = seen ≡ true
Started seen (l ∷ ls) = Unit

Started-seen : (ls : List Bytes) → Started true ls
Started-seen [] = refl
Started-seen (l ∷ ls) = tt

abbrev pub verdict : ℕ → Event → Bytes → List (Option Bytes) → Result
verdict max ev text more =
    if leb (length text) max then got (record ev { text = text }) more else event_too_long

next_blank :
    (max : ℕ) (p : Pending) (more : List (Option Bytes))
    → p.seen ≡ true
    → next max p (some [] ∷ more) ≡ got (record p.ev { text = join_lf p.parts }) more
unfolding next
next_blank max p more h = ground (arith, h)

abbrev with_part : Pending → Bytes → Pending
with_part p v = record p {
  seen = true;
  parts = p.parts ++ (v ∷ []);
  part_bytes = p.part_bytes + joint p.parts + length v;
}

next_data_fits :
    (max : ℕ) (p : Pending) (v : Bytes) (more : List (Option Bytes))
    → p.part_bytes + joint p.parts + length v ≤ max
    → next max p (some (data_prefix ++ v) ∷ more) ≡ next max (with_part p v) more
unfolding take_data
next_data_fits max p v more h = next_data max p v more ∙ ground (arith, h)

next_data_too_long :
    (max : ℕ) (p : Pending) (v : Bytes) (more : List (Option Bytes))
    → max < p.part_bytes + joint p.parts + length v
    → next max p (some (data_prefix ++ v) ∷ more) ≡ event_too_long
unfolding take_data
next_data_too_long max p v more h = next_data max p v more ∙ ground (arith, h)

next-body :
    (max : ℕ) (ls : List Bytes) (p : Pending) (more : List (Option Bytes))
    → Started p.seen ls
    → p.part_bytes ≡ length (join_lf p.parts)
    → length (join_lf p.parts) ≤ max
    → next max p (body ls more) ≡ verdict max p.ev (join_lf (p.parts ++ ls)) more
next-body max [] p more h size room =
    next_blank max p more h
    ∙ subst
        (λ ps.
          got (record p.ev { text = join_lf p.parts }) more ≡ verdict max p.ev (join_lf ps) more)
        (sym (append-nil p.parts)) (ground (arith, room))
next-body max (l ∷ ls) p more h size room =
    let n : ℕ = p.part_bytes + joint p.parts + length l in
    let grown : n ≡ length (join_lf (p.parts ++ (l ∷ []))) =
      omega (arith, size, length-join_lf-append p.parts l) in
    subst (λ ps. next max p (body (l ∷ ls) more) ≡ verdict max p.ev (join_lf ps) more)
      (append_assoc p.parts (l ∷ []) ls)
      (elim (dec_lt max n) [
        | no fits ↦
            next_data_fits max p l (body ls more) (omega arith)
            ∙ next-body max ls (with_part p l) more (Started-seen ls) grown (omega arith)
        | yes long ↦
            next_data_too_long max p l (body ls more) long
            ∙ ground (arith, grown, long, length-join_lf-le (p.parts ++ (l ∷ [])) ls)
      ])

pub data_prefix-Inside : (l : Bytes) → All Inside l → All Inside (data_prefix ++ l)
data_prefix-Inside l h = All-append Inside data_prefix l (omega arith) h

-- The line that `Send` writes for a part fits into the scanner's buffer with its LF.
abbrev pub Fits : ℕ → Bytes → Type 0
Fits max l = length (data_prefix ++ l) < max

lines-body :
    (max : ℕ) (ls : List Bytes) (rest : Bytes)
    → 0 < max
    → All (All Inside) ls
    → All (Fits max) ls
    → lines max (data_lines ls ++ (b'\n' ∷ rest)) ≡ body ls (lines max rest)
unfolding data_lines
lines-body max [] rest z h f = lines-line max [] rest tt z
lines-body max (l ∷ ls) rest z h f =
    ap (λ t. lines max (data_prefix ++ t)) (append_assoc l (b'\n' ∷ data_lines ls) (b'\n' ∷ rest))
    ∙ lines-line max (data_prefix ++ l) (data_lines ls ++ (b'\n' ∷ rest)) (data_prefix-Inside l h.0)
        f.0
    ∙ ap (λ t. some (data_prefix ++ l) ∷ t) (lines-body max ls rest z h.1 f.1)

next_sent_body :
    (max : ℕ) (ev : Event) (seen : Bool) (text : Bytes) (more : List (Option Bytes))
    → next max
        (record { ev = ev; parts = []; part_bytes = 0; seen = seen })
        (body (split_lf text) more)
      ≡ verdict max ev text more
unfolding join_lf
next_sent_body max ev seen text more =
    let (l, ls, e) = split_lf-cons text in
    let p : Pending = record { ev = ev; parts = []; part_bytes = 0; seen = seen } in
    subst (λ t. next max p (body (split_lf text) more) ≡ verdict max ev t more) (join-split_lf text)
      (subst (λ ps. next max p (body ps more) ≡ verdict max ev (join_lf ps) more) (sym e)
        (next-body max (l ∷ ls) p more tt (omega arith) (omega arith)))

pub event_name_line :
    (max c : ℕ) (cs rest : Bytes)
    → All Inside (c ∷ cs)
    → length (event_prefix ++ (c ∷ cs)) < max
    → lines max (event_line (c ∷ cs) ++ rest) ≡ some (event_prefix ++ (c ∷ cs)) ∷ lines max rest
unfolding event_line
event_name_line max c cs rest h f =
    ap (λ t. lines max (event_prefix ++ t)) (append_assoc (c ∷ cs) (b'\n' ∷ []) rest)
    ∙ lines-line max (event_prefix ++ (c ∷ cs)) rest
        (All-append Inside event_prefix (c ∷ cs) (omega arith) h) f

pub send_shape :
    (event text rest : Bytes)
    → send event text ++ rest ≡ event_line event ++ (data_lines (split_lf text) ++ (b'\n' ∷ rest))
unfolding send
send_shape event text rest =
    append_assoc (event_line event) _ rest
    ∙ ap (λ t. event_line event ++ t) (append_assoc (data_lines (split_lf text)) (b'\n' ∷ []) rest)

-- The event line fits, if there is one.
abbrev pub NameFits : ℕ → Bytes → Type 0
NameFits max [] = Unit {0}
NameFits max (c ∷ cs) = length (event_prefix ++ (c ∷ cs)) < max

-- The event of lines that all fit.
pub next_event-Fits :
    (max : ℕ) (event text rest : Bytes)
    → All Inside event
    → All (λ c. c ≢ b'\r') text
    → 0 < max
    → NameFits max event
    → All (Fits max) (split_lf text)
    → next_event max (lines max (send event text ++ rest))
      ≡ verdict max (record no_event { event_type = event }) text (lines max rest)
unfolding next_event event_line
next_event-Fits max [] text rest h k z n f =
    ap (λ t. next_event max (lines max t)) (send_shape [] text rest)
    ∙ ap (next max nothing_pending)
        (lines-body max (split_lf text) rest z (split_lf-Inside text k) f)
    ∙ next_sent_body max no_event false text (lines max rest)
next_event-Fits max (c ∷ cs) text rest h k z n f =
    let parts = split_lf text in
    ap (λ t. next_event max (lines max t)) (send_shape (c ∷ cs) text rest)
    ∙ ap (next max nothing_pending) (
        event_name_line max c cs (data_lines parts ++ (b'\n' ∷ rest)) h n
        ∙ ap (λ t. some (event_prefix ++ (c ∷ cs)) ∷ t)
            (lines-body max parts rest z (split_lf-Inside text k) f))
    ∙ next_event_name max nothing_pending (c ∷ cs) (body parts (lines max rest))
    ∙ next_sent_body max (record no_event { event_type = c ∷ cs }) true text (lines max rest)
