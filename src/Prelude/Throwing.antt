-- ===== src/Prelude/Throwing.antt =====
-- A result or the code of the `DomainException` that the source throws.
use mathlib.Core.Path.{◌≡◌, refl}
use mathlib.Core.Bool.{Bool, true, false}

pub data Outcome {ε α} (Code : Type ε) (Value : Type α) : Type (ε ⊔ α) where
  throw : Code → Outcome Code Value
  ok : Value → Outcome Code Value

module _ {ε α β} {Code : Type ε} {Value : Type α} {Next : Type β} where
  infixl 5 ◌>>=◌
  -- `await`: what throws ends the whole.
  abbrev pub ◌>>=◌ : Outcome Code Value → (Value → Outcome Code Next) → Outcome Code Next
  throw code >>= next = throw code
  ok value >>= next = next value

  -- What a chain that returns has returned on the way.
  pub >>=-eq-ok :
      (first : Outcome Code Value) (next : Value → Outcome Code Next) {last : Next}
      → (first >>= next) ≡ ok last
      → (value : Value) × (first ≡ ok value) × (next value ≡ ok last)
  >>=-eq-ok (throw code) next returned = cc
  >>=-eq-ok (ok value) next returned = (value, refl, returned)

  -- The same, for a proof of anything from the parts.
  pub >>=-elim {γ} :
      {Goal : Type γ} (first : Outcome Code Value) (next : Value → Outcome Code Next) {last : Next}
      → (first >>= next) ≡ ok last
      → ((value : Value) → first ≡ ok value → next value ≡ ok last → Goal)
      → Goal
  >>=-elim (throw code) next returned go = absurd (cc)
  >>=-elim (ok value) next returned go = go value refl returned

module _ {ε} {Code : Type ε} where
  infixl 5 ◌>>◌
  abbrev pub ◌>>◌ {β} :
      {Next : Type β} → Outcome Code (Unit {0}) → Outcome Code Next → Outcome Code Next
  check >> rest = check >>= (λ done. rest)

  -- `if (!condition) throw new DomainException(code)`
  abbrev pub require : Bool → Code → Outcome Code (Unit {0})
  require false code = throw code
  require true code = ok tt

  pub require-eq-ok :
      (condition : Bool) (code : Code) {u : Unit {0}}
      → require condition code ≡ ok u
      → condition ≡ true
  require-eq-ok false code passed = cc
  require-eq-ok true code passed = refl

  pub ok-injective {α} :
      {Value : Type α} {a b : Value} → ◌≡◌ {A = Outcome Code Value} (ok a) (ok b) → a ≡ b
  ok-injective same = cc
