-- ===== src/Exec/RawStream.antt =====
-- internal/exec/rawstream.go: a forwarded byte stream cut into whole events, and the usage that is
-- folded over them.
pub mod Cuts
pub mod Folding
mod Examples
use darkrouter.Base.{
  ℕ, zero, suc, ◌+◌, Bool, true, false, ◌&&◌, List, [], ◌∷◌, ◌++◌, Option, none, some, drop, length,
  ltb, ◌==◌, if◌then◌else◌,
}
use darkrouter.Ir.{Usage}
use darkrouter.Sse.Lines.{Bytes}

abbrev pub starts_lf : Bytes → Bool
starts_lf [] = false
starts_lf (c ∷ cs) = c == b'\n'

-- The boundary that starts with an LF, by the byte behind it and the rest.
unfoldable pub lf_pair : ℕ → Bytes → Option ℕ
lf_pair d cs =
    if d == b'\n'
    then some 2
    else if d == b'\r'
    then (if starts_lf cs then some 3 else some 2)
    else none

-- The boundary that starts with a CRLF, by the bytes behind it.
unfoldable pub crlf_pair : Bytes → Option ℕ
crlf_pair [] = none
crlf_pair (d ∷ ds) =
    if d == b'\n'
    then some 3
    else if d == b'\r'
    then (if starts_lf ds then some 4 else some 3)
    else none

abbrev pub further : ℕ → Option ℕ → Option ℕ
further k none = none
further k (some n) = some (k + n)

abbrev pub first_of : Option ℕ → Option ℕ → Option ℕ
first_of none m = m
first_of (some n) m = some n

-- `eventEnd`; `none` is -1.
unfoldable pub event_end : Bytes → Option ℕ
unfolding lf_pair crlf_pair
event_end [] = none
event_end (c ∷ []) = none
event_end (c ∷ d ∷ cs) =
    let next = further 1 (event_end (d ∷ cs)) in
    let skip = further 2 (event_end cs) in
    if c == b'\n'
    then first_of (lf_pair d cs) next
    else if c == b'\r'
    then (if d == b'\n' then first_of (crlf_pair cs) skip else if d == b'\r' then some 2 else next)
    else next

abbrev pub take : ℕ → Bytes → Bytes
take zero cs = []
take (suc n) [] = []
take (suc n) (c ∷ cs) = c ∷ take n cs

pub record EventSplitter : Type 0 where
  pub buf : Bytes
  pub max : ℕ

-- The loop of `push`: the events, and what is left. Each cut takes a byte at least, so as many
-- turns as bytes suffice.
unfoldable pub cut : ℕ → Bytes → List Bytes × Bytes
unfolding event_end
cut zero buf = ([], buf)
cut (suc fuel) buf = elim (event_end buf) [
  | none ↦ ([], buf)
  | some n ↦ let rest = cut fuel (drop n buf) in (take n buf ∷ rest.0, rest.1)
]

-- `push`: the splitter, the events, and whether the error is ErrEventTooLong.
unfoldable pub push : EventSplitter → Bytes → EventSplitter × List Bytes × Bool
unfolding cut
push s chunk =
    let buf = s.buf ++ chunk in
    let (evs, left) = cut (length buf) buf in
    (record s { buf = left }, evs, ltb 0 s.max && ltb s.max (length left))

unfoldable pub flush : EventSplitter → EventSplitter × Bytes
flush s = (record s { buf = [] }, s.buf)

-- A stream as `forwardStream` reads it, chunk by chunk to its end: every event, and the tail.
unfoldable pub push_all : EventSplitter → List Bytes → List Bytes
unfolding push flush
push_all s [] = (flush s).1 ∷ []
push_all s (chunk ∷ chunks) = let (t, evs, _) = push s chunk in evs ++ push_all t chunks

abbrev pub larger : ℕ → ℕ → ℕ
larger known n = if ltb 0 n then n else known

-- `mergeUsage`
unfoldable pub merge_usage : Usage → Option Usage → Usage
merge_usage dst none = dst
merge_usage dst (some u) = record dst {
  input_tokens = larger dst.input_tokens u.input_tokens;
  output_tokens = larger dst.output_tokens u.output_tokens;
  cache_read_tokens = larger dst.cache_read_tokens u.cache_read_tokens;
  cache_write_tokens = larger dst.cache_write_tokens u.cache_write_tokens;
  cache_write_5m_tokens = larger dst.cache_write_5m_tokens u.cache_write_5m_tokens;
  cache_write_1h_tokens = larger dst.cache_write_1h_tokens u.cache_write_1h_tokens;
  reasoning_tokens = larger dst.reasoning_tokens u.reasoning_tokens;
}
