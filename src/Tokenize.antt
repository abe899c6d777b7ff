-- ===== src/Tokenize.antt =====
-- internal/tokenize/tokenize.go: how a text is cut before it is handed to a codec, and which codec a
-- model's name picks. Texts are bytes here; `strings.ToLower` is the argument `to_lower`. The codec
-- itself is a library.
pub mod Segments
mod Examples
use mathlib.Core.List.{reverse}
use darkrouter.Base.{
  ℕ, zero, suc, ◌+◌, ◌/◌, ◌*◌, String, Bool, true, false, not, ◌&&◌, ◌||◌, List, [], ◌∷◌, ◌++◌, ltb,
  leb, ◌==◌, if◌then◌else◌, has_prefix, leaf, length,
}

abbrev pub Bytes : Type 0
Bytes = List ℕ

pub data Encoding : Type 0 where
  o200k cl100k heuristic : Encoding

abbrev pub o200k_prefixes : List String
o200k_prefixes = "gpt-5" ∷ "gpt-4.1" ∷ "gpt-4o" ∷ "gpt-oss" ∷ "o1" ∷ "o3" ∷ "o4" ∷ []

abbrev pub cl100k_prefixes : List String
cl100k_prefixes = "gpt-4" ∷ "gpt-3.5" ∷ "text-embedding" ∷ []

unfoldable pub has_any_prefix : String → List String → Bool
has_any_prefix name [] = false
has_any_prefix name (p ∷ ps) = has_prefix name p || has_any_prefix name ps

unfoldable pub encoding_for : (String → String) → String → Encoding
unfolding has_any_prefix
encoding_for to_lower model =
    let name = leaf (to_lower model) in
    if has_any_prefix name o200k_prefixes
    then o200k
    else if has_any_prefix name cl100k_prefixes
    then cl100k
    else heuristic

unfoldable pub heuristic_count : Bytes → ℕ
heuristic_count s = (length s + 3) / 4

abbrev pub segment_bytes : ℕ
segment_bytes = 32 * 1024

abbrev pub max_run_bytes : ℕ
max_run_bytes = 256

-- utf8.RuneStart
unfoldable pub rune_start : ℕ → Bool
rune_start b = ltb b 0x80 || leb 0xC0 b

unfoldable pub ascii_space : ℕ → Bool
ascii_space b = (leb 9 b && leb b 13) || b == 32

-- The white space of three bytes: U+1680, U+2000 to U+200A, U+2028, U+2029, U+202F, U+205F, U+3000.
unfoldable pub wide_space : ℕ → ℕ → ℕ → Bool
wide_space a b c =
    (a == 0xE1 && (b == 0x9A && c == 0x80))
    || ((a == 0xE2
          && (b == 0x80 && ((leb 0x80 c && leb c 0x8A) || (c == 0xA8 || (c == 0xA9 || c == 0xAF)))))
        || ((a == 0xE2 && (b == 0x81 && c == 0x9F)) || (a == 0xE3 && (b == 0x80 && c == 0x80))))

-- U+0085 and U+00A0.
unfoldable pub latin_space : ℕ → ℕ → Bool
latin_space a b = a == 0xC2 && (b == 0x85 || b == 0xA0)

-- `unicode.IsSpace` of the last rune before a position, the bytes before it given backwards.
unfoldable pub space_before : Bytes → Bool
unfolding ascii_space latin_space wide_space
space_before [] = false
space_before (c ∷ []) = ascii_space c
space_before (c ∷ b ∷ []) = ascii_space c || latin_space b c
space_before (c ∷ b ∷ a ∷ _) = ascii_space c || (latin_space b c || wide_space a b c)

-- `unicode.IsSpace` of the first rune behind a position.
unfoldable pub space_after : Bytes → Bool
unfolding ascii_space latin_space wide_space
space_after [] = false
space_after (a ∷ []) = ascii_space a
space_after (a ∷ b ∷ []) = ascii_space a || latin_space a b
space_after (a ∷ b ∷ c ∷ _) = ascii_space a || (latin_space a b || wide_space a b c)

unfoldable pub first_is : ℕ → Bytes → Bool
first_is k [] = false
first_is k (b ∷ _) = b == k

-- `cleanCut` between the bytes before, given backwards, and those behind.
unfoldable pub clean_cut : Bytes → Bytes → Bool
unfolding space_before space_after first_is
clean_cut before after =
    if first_is b' ' after
    then not (space_before before)
    else first_is b'\n' before && (not (first_is b'/' after) && not (space_after after))

-- The variables of the loop: the bytes of the segment so far, backwards, and how many bytes lie
-- behind `start` and behind `clean`.
pub record Cut : Type 0 where
  pub held : Bytes
  pub size : ℕ
  pub since : ℕ

unfoldable pub fresh : ℕ → Cut
fresh c = record { held = c ∷ []; size = 1; since = 1 }

-- The segment goes on, and the position before `c` is a clean one.
unfoldable pub mark_clean : ℕ → Cut → Cut
mark_clean c k = record { held = c ∷ k.held; size = k.size + 1; since = 1 }

unfoldable pub go_on : ℕ → Cut → Cut
go_on c k = record { held = c ∷ k.held; size = k.size + 1; since = k.since + 1 }

-- One round at the byte `c`: whether the segment is yielded, and the variables after it.
unfoldable pub round : Bytes → ℕ → Bytes → Cut → Bool × Cut
unfolding clean_cut fresh mark_clean go_on rune_start
round before c rest k =
    if clean_cut before (c ∷ rest)
    then (if leb segment_bytes k.size then (true, fresh c) else (false, mark_clean c k))
    else if leb max_run_bytes k.since && rune_start c
    then (true, fresh c)
    else (false, go_on c k)

unfoldable pub yields : Bool → Cut → List Bytes → List Bytes
yields true k rest = reverse k.held ∷ rest
yields false k rest = rest

-- The loop, from the position before the bytes that are left.
unfoldable pub cuts : Bytes → Bytes → Cut → List Bytes
unfolding round yields
cuts before [] k = reverse k.held ∷ []
cuts before (c ∷ rest) k =
    let r = round before c rest k in yields r.0 k (cuts (c ∷ before) rest r.1)

unfoldable pub segments : Bytes → List Bytes
unfolding cuts
segments [] = []
segments (c ∷ rest) = cuts (c ∷ []) rest (fresh c)
