-- ===== src/Prelude/Tests.antt =====
-- Boolean tests, the conditional, and one equality test for every type with decidable equality.
use Prim.Native.Nat.{ℕ, ◌≤◌, ◌<◌, compare, Ordering}
use Prim.Native.String.{String}
use mathlib.Core.Path.{◌≡◌, refl}
use mathlib.Core.Logic.{◌↔◌, ◌⊎◌, inl, inr}
use mathlib.Core.Bool.{Bool, true, false, ◌&&◌}
use mathlib.Core.Option.{Option, none, some}
use native.Mathlib.Omega.{arith}
use text.Mathlib.Text.{◌==◌ as str_eq}
use text.Mathlib.TextEquality.{eq_iff}

abbrev pub ltb : ℕ → ℕ → Bool
ltb a b = elim (compare a b) [ Ordering.lt ↦ true | _ ↦ false ]

abbrev pub leb : ℕ → ℕ → Bool
leb a b = elim (compare a b) [ Ordering.gt ↦ false | _ ↦ true ]

abbrev pub nat_beq : ℕ → ℕ → Bool
nat_beq a b = elim (compare a b) [ Ordering.eq ↦ true | _ ↦ false ]

infix 1 if◌then◌else◌
abbrev pub if◌then◌else◌ {ℓ} : {A : Type ℓ} → Bool → A → A → A
if true then x else y = x
if false then x else y = y

pub leb_iff : (a b : ℕ) → (leb a b ≡ true) ↔ (a ≤ b)
leb_iff a b = ground arith

pub ltb_iff : (a b : ℕ) → (ltb a b ≡ true) ↔ (a < b)
ltb_iff a b = ground arith

-- To split on a computed value and keep the equation.
pub Bool-cases : (b : Bool) → (b ≡ true) ⊎ (b ≡ false)
Bool-cases true = inl refl
Bool-cases false = inr refl

pub Option-cases {ℓ} : {A : Type ℓ} (o : Option A) → (o ≡ none) ⊎ ((a : A) × (o ≡ some a))
Option-cases none = inl refl
Option-cases (some a) = inr (a, refl)

pub some-injective {ℓ} : {A : Type ℓ} {a b : A} → ◌≡◌ {A = Option A} (some a) (some b) → a ≡ b
some-injective h = cc

-- The source's `===` on strings and enumerations.
pub both : (a b : Bool) → (a && b) ≡ true → (a ≡ true) × (b ≡ true)
both true b h = (refl, h)
both false b h = cc

pub record Eq {ℓ} (Value : Type ℓ) : Type ℓ where
  pub strict_equals : Value → Value → Bool
  pub equals_iff : (x y : Value) → (strict_equals x y ≡ true) ↔ (x ≡ y)

infix 50 ◌===◌
abbrev pub ◌===◌ {ℓ} : {Value : Type ℓ} ⦃equality : Eq Value⦄ → Value → Value → Bool
◌===◌ ⦃equality⦄ = equality.strict_equals

pub ===_iff {ℓ} : {A : Type ℓ} ⦃e : Eq A⦄ (a b : A) → ((a === b) ≡ true) ↔ (a ≡ b)
===_iff ⦃e⦄ a b = e.equals_iff a b

pub ===_refl {ℓ} : {A : Type ℓ} ⦃e : Eq A⦄ (a : A) → (a === a) ≡ true
===_refl ⦃e⦄ a = (e.equals_iff a a).1 refl

pub ne_of_test {ℓ} : {A : Type ℓ} ⦃e : Eq A⦄ (a b : A) → (a === b) ≡ false → (a ≡ b → ⊥)
ne_of_test a b h e = let same = (===_iff a b).1 e in cc

abbrev pub of_dec {ℓ} : {A : Type ℓ} → Dec A → Bool
of_dec (yes p) = true
of_dec (no p) = false

pub of_dec_iff {ℓ} : {A : Type ℓ} (d : Dec A) → (of_dec d ≡ true) ↔ A
of_dec_iff (yes p) = (λ e. p, λ a. refl)
of_dec_iff (no p) = (λ e. cc, λ a. absurd (p a))

abbrev pub eq_by {ℓ} : {A : Type ℓ} → Discrete A → Eq A
eq_by d = record { strict_equals = λ a b. of_dec (d a b); equals_iff = λ a b. of_dec_iff (d a b) }

instance abbrev pub string_eq : Eq String
string_eq = record { strict_equals = str_eq; equals_iff = eq_iff }

abbrev pub option_beq {ℓ} : {A : Type ℓ} ⦃e : Eq A⦄ → Option A → Option A → Bool
option_beq none none = true
option_beq (some a) (some b) = a === b
option_beq _ _ = false

pub option_beq_iff {ℓ} :
    {A : Type ℓ} ⦃e : Eq A⦄ (a b : Option A) → (option_beq a b ≡ true) ↔ (a ≡ b)
option_beq_iff none none = (λ h. refl, λ h. refl)
option_beq_iff none (some b) = (λ h. cc, λ h. cc)
option_beq_iff (some a) none = (λ h. cc, λ h. cc)
option_beq_iff (some a) (some b) = ground (arith, ===_iff a b)

-- `null` is a value like the others.
instance abbrev pub option_eq {ℓ} : {A : Type ℓ} ⦃e : Eq A⦄ → Eq (Option A)
option_eq = record { strict_equals = option_beq; equals_iff = option_beq_iff }

-- `if (!text)`: `null` and the empty text do not count.
abbrev pub truthy : Option String → Option String
truthy none = none
truthy (some text) = if str_eq text "" then none else some text
