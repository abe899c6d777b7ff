-- ===== src/Base/Texts.antt =====
-- Texts walked by character. Go compares strings by their bytes; UTF-8 keeps the order of the
-- code points, so the order here is that of the code points.
use Prim.Native.Char.{code}
use Prim.Native.Nat.{ℕ}
use Prim.Native.String.{String}
use mathlib.Core.Path.{◌≡◌, refl, ap₂}
use mathlib.Core.Bool.{Bool, true, false, ◌&&◌, ◌||◌}
use mathlib.Core.List.{List, [], ◌∷◌}
use native.Mathlib.Omega.{arith}
use text.Mathlib.TextEquality.{Char-path}
use darkrouter.Base.Tests.{ltb, ◌==◌}

abbrev pub codes : String → List ℕ
codes String.[] = []
codes (String.◌∷◌ c s) = code c ∷ codes s

pub codes-injective : (s t : String) → codes s ≡ codes t → s ≡ t
codes-injective String.[] String.[] h = refl
codes-injective String.[] (String.◌∷◌ d t) h = absurd (cc h)
codes-injective (String.◌∷◌ c s) String.[] h = absurd (cc h)
codes-injective (String.◌∷◌ c s) (String.◌∷◌ d t) h =
    ap₂ String.◌∷◌ (Char-path c d (cc h)) (codes-injective s t (cc h))

unfoldable pub lex_lt : List ℕ → List ℕ → Bool
lex_lt [] [] = false
lex_lt [] (b ∷ bs) = true
lex_lt (a ∷ ds) [] = false
lex_lt (a ∷ ds) (b ∷ bs) = ltb a b || (a == b && lex_lt ds bs)

-- a < b on strings
unfoldable pub str_lt : String → String → Bool
unfolding lex_lt
str_lt s t = lex_lt (codes s) (codes t)

lex_asymm : (a b : List ℕ) → lex_lt a b ≡ true → lex_lt b a ≡ false
unfolding lex_lt
lex_asymm [] [] h = refl
lex_asymm [] (y ∷ b) h = refl
lex_asymm (x ∷ a) [] h = cc
lex_asymm (x ∷ a) (y ∷ b) h = ground (arith, lex_asymm a b)

lex_trans : (a b c : List ℕ) → lex_lt a b ≡ true → lex_lt b c ≡ true → lex_lt a c ≡ true
unfolding lex_lt
lex_trans [] [] c h k = cc
lex_trans [] (y ∷ b) [] h k = cc
lex_trans [] (y ∷ b) (z ∷ c) h k = refl
lex_trans (x ∷ a) [] c h k = cc
lex_trans (x ∷ a) (y ∷ b) [] h k = cc
lex_trans (x ∷ a) (y ∷ b) (z ∷ c) h k = ground (arith, lex_trans a b c)

lex_total : (a b : List ℕ) → lex_lt a b ≡ false → lex_lt b a ≡ false → a ≡ b
unfolding lex_lt
lex_total [] [] h k = refl
lex_total [] (y ∷ b) h k = cc
lex_total (x ∷ a) [] h k = cc
lex_total (x ∷ a) (y ∷ b) h k = ground (arith, lex_total a b)

pub str_lt-asymm : (s t : String) → str_lt s t ≡ true → str_lt t s ≡ false
unfolding str_lt
str_lt-asymm s t h = lex_asymm (codes s) (codes t) h

pub str_lt_trans : (s t u : String) → str_lt s t ≡ true → str_lt t u ≡ true → str_lt s u ≡ true
unfolding str_lt
str_lt_trans s t u h k = lex_trans (codes s) (codes t) (codes u) h k

pub str_lt-total : (s t : String) → str_lt s t ≡ false → str_lt t s ≡ false → s ≡ t
unfolding str_lt
str_lt-total s t h k = codes-injective s t (lex_total (codes s) (codes t) h k)
