-- ===== src/Base/Tests.antt =====
-- Boolean tests on numbers and on texts, and the splits on them that keep the equation.
use Prim.Native.Nat.{ℕ, compare, Ordering, ◌<◌}
use Prim.Native.String.{String}
use mathlib.Core.Path.{◌≡◌, refl, sym, ◌∙◌}
use mathlib.Core.Logic.{◌⊎◌, ◌≢◌, ◌↔◌, inl, inr}
use mathlib.Core.Bool.{Bool, true, false}
use mathlib.Core.Option.{Option, none, some}
use native.Mathlib.Omega.{arith}
use text.Mathlib.Text.{◌==◌ as str_eq}
use text.Mathlib.TextEquality.{eq_iff}

abbrev pub ltb : ℕ → ℕ → Bool
ltb a b = elim (compare a b) [ Ordering.lt ↦ true | _ ↦ false ]

abbrev pub leb : ℕ → ℕ → Bool
leb a b = elim (compare a b) [ Ordering.gt ↦ false | _ ↦ true ]

infix 50 ◌==◌ ◌==ₛ◌
abbrev pub ◌==◌ : ℕ → ℕ → Bool
a == b = elim (compare a b) [ Ordering.eq ↦ true | _ ↦ false ]

-- Go's `==` on strings. It is shut, and read through the laws below.
unfoldable pub ◌==ₛ◌ : String → String → Bool
a ==ₛ b = str_eq a b

infix 1 if◌then◌else◌
abbrev pub if◌then◌else◌ {ℓ} : {A : Type ℓ} → Bool → A → A → A
if true then x else y = x
if false then x else y = y

pub ltb→lt : (a b : ℕ) → ltb a b ≡ true → a < b
ltb→lt a b h = ground arith

pub Bool-cases : (b : Bool) → (b ≡ true) ⊎ (b ≡ false)
Bool-cases true = inl refl
Bool-cases false = inr refl

pub ==ₛ_iff : (a b : String) → ((a ==ₛ b) ≡ true) ↔ (a ≡ b)
unfolding ◌==ₛ◌
==ₛ_iff a b = eq_iff a b

pub eq_of_==ₛ : (a b : String) → (a ==ₛ b) ≡ true → a ≡ b
eq_of_==ₛ a b = (==ₛ_iff a b).0

pub ==ₛ_refl : (a : String) → (a ==ₛ a) ≡ true
==ₛ_refl a = (==ₛ_iff a a).1 refl

pub ==ₛ_false : (a b : String) → a ≢ b → (a ==ₛ b) ≡ false
==ₛ_false a b h = elim (Bool-cases (a ==ₛ b)) [ inl e ↦ absurd (h ((==ₛ_iff a b).0 e)) | inr e ↦ e ]

pub ne_of_==ₛ : (a b : String) → (a ==ₛ b) ≡ false → a ≢ b
ne_of_==ₛ a b h e = cc ((==ₛ_iff a b).1 e)

pub Option-cases {ℓ} : {A : Type ℓ} (o : Option A) → (o ≡ none) ⊎ ((a : A) × (o ≡ some a))
Option-cases none = inl refl
Option-cases (some a) = inr (a, refl)

pub ==ₛ_sym : (a b : String) → (a ==ₛ b) ≡ (b ==ₛ a)
==ₛ_sym a b = elim (Bool-cases (a ==ₛ b)) [
  | inl e ↦ rw (eq_of_==ₛ a b e) refl
  | inr e ↦ e ∙ sym (==ₛ_false b a (λ h. ne_of_==ₛ a b e (sym h)))
]
