-- ===== src/Base/Tests.antt =====
-- Boolean tests on the native numbers, the conditional, and case splits that keep the equation.
use Prim.Native.Nat.{ℕ, ◌≤◌, ◌<◌, compare, Ordering}
use mathlib.Core.Path.{◌≡◌, refl}
use mathlib.Core.Logic.{◌↔◌, ◌⊎◌, inl, inr}
use mathlib.Core.Bool.{Bool, true, false}
use mathlib.Core.Option.{Option, none, some}
use native.Mathlib.Omega.{arith}

abbrev pub ltb : ℕ → ℕ → Bool
ltb a b = elim (compare a b) [ Ordering.lt ↦ true | _ ↦ false ]

abbrev pub leb : ℕ → ℕ → Bool
leb a b = elim (compare a b) [ Ordering.gt ↦ false | _ ↦ true ]

infix 50 ◌==◌
abbrev pub ◌==◌ : ℕ → ℕ → Bool
a == b = elim (compare a b) [ Ordering.eq ↦ true | _ ↦ false ]

infix 1 if◌then◌else◌
abbrev pub if◌then◌else◌ {ℓ} : {A : Type ℓ} → Bool → A → A → A
if true then x else y = x
if false then x else y = y

pub ltb→lt : (a b : ℕ) → ltb a b ≡ true → a < b
ltb→lt a b h = ground arith

pub lt→ltb : (a b : ℕ) → a < b → ltb a b ≡ true
lt→ltb a b h = ground arith

pub leb→le : (a b : ℕ) → leb a b ≡ true → a ≤ b
leb→le a b h = ground arith

pub ==_iff : (a b : ℕ) → ((a == b) ≡ true) ↔ (a ≡ b)
==_iff a b = ground arith

pub ruleset tests = (arith, ltb→lt, lt→ltb, leb→le)

pub Bool-cases : (b : Bool) → (b ≡ true) ⊎ (b ≡ false)
Bool-cases true = inl refl
Bool-cases false = inr refl

pub Option-cases {ℓ} : {A : Type ℓ} (o : Option A) → (o ≡ none) ⊎ ((a : A) × (o ≡ some a))
Option-cases none = inl refl
Option-cases (some a) = inr (a, refl)

pub if_holds {ℓ κ} :
    {A : Type ℓ} (T : A → Type κ) (b : Bool) (t u : A)
    → (b ≡ true → T t)
    → (b ≡ false → T u)
    → T (if b then t else u)
if_holds T true t u f g = f refl
if_holds T false t u f g = g refl

pub option_holds {ℓ κ μ} :
    {A : Type ℓ} {B : Type κ} (T : B → Type μ) (o : Option A) (n : B) (f : A → B)
    → (o ≡ none → T n)
    → ((a : A) → o ≡ some a → T (f a))
    → T (elim o [ none ↦ n | some a ↦ f a ])
option_holds T none n f g h = g refl
option_holds T (some a) n f g h = h a refl

-- The same for a split by `elim`.
pub cases_hold {ℓ κ} :
    {A : Type ℓ} (T : A → Type κ) (b : Bool) (t u : A)
    → (b ≡ true → T t)
    → (b ≡ false → T u)
    → T (elim b [ true ↦ t | false ↦ u ])
cases_hold T true t u f g = f refl
cases_hold T false t u f g = g refl
