-- ===== src/Prelude/Tests.antt =====
-- Boolean tests on numbers and texts, the conditional, and splits that keep their equation.
use Prim.Native.Nat.{ℕ, compare, Ordering}
use Prim.Native.String.{String}
use mathlib.Core.Path.{ap, ◌≡◌, refl, sym, ◌∙◌}
use mathlib.Core.Logic.{◌⊎◌, inl, inr, ◌↔◌, ◌≢◌}
use mathlib.Core.Bool.{Bool, true, false}
use mathlib.Core.Option.{Option, none, some}
use native.Mathlib.Omega.{arith}
use text.Mathlib.Text.{◌==◌ as text_eq}
use text.Mathlib.TextEquality.{eq_iff}

abbrev pub ltb : ℕ → ℕ → Bool
ltb a b = elim (compare a b) [ Ordering.lt ↦ true | _ ↦ false ]

abbrev pub leb : ℕ → ℕ → Bool
leb a b = elim (compare a b) [ Ordering.gt ↦ false | _ ↦ true ]

infix 50 ◌==◌
abbrev pub ◌==◌ : ℕ → ℕ → Bool
a == b = elim (compare a b) [ Ordering.eq ↦ true | _ ↦ false ]

infix 1 if◌then◌else◌
abbrev pub if◌then◌else◌ {ℓ} : {A : Type ℓ} → Bool → A → A → A
if true then x else y = x
if false then x else y = y

-- To split on a computed value and keep the equation.
pub Bool-cases : (b : Bool) → (b ≡ true) ⊎ (b ≡ false)
Bool-cases true = inl refl
Bool-cases false = inr refl

pub Option-cases {ℓ} : {A : Type ℓ} (o : Option A) → (o ≡ none) ⊎ ((a : A) × (o ≡ some a))
Option-cases none = inl refl
Option-cases (some a) = inr (a, refl)

abbrev pub value_or {ℓ} : {A : Type ℓ} → A → Option A → A
value_or a none = a
value_or a (some b) = b

decide_by : {A : Type 0} → (b : Bool) → (b ≡ true) ↔ A → Dec A
decide_by true h = yes (h.0 refl)
decide_by false h = no (λ a. absurd (differ (h.1 a)))
  where
    differ : false ≡ true → ⊥
    differ e = ground arith

-- Go's `==` on strings, as a decision: a branch on it has the equation.
unfoldable pub string_discrete : Discrete String
unfolding decide_by
string_discrete s t = decide_by (text_eq s t) (eq_iff s t)

-- The same test as a Boolean.
abbrev pub str_eq : String → String → Bool
str_eq s t = elim (string_discrete s t) [ yes _ ↦ true | no _ ↦ false ]

-- Texts that the library's test tells apart.
pub ne_text : (s t : String) → text_eq s t ≡ false → s ≢ t
ne_text s t e p = differ (sym e ∙ (eq_iff s t).1 p)
  where
    differ : false ≡ true → ⊥
    differ e = ground arith

pub some-injective : {A : Type 0} {a b : A} → some a ≡ some b → a ≡ b
some-injective {a = a} e = ap (value_or a) e
