-- ===== src/Prelude/Lists.antt =====
-- Lists measured by native numbers, and the array methods of the source.
use Prim.Native.Nat.{ℕ, suc, ◌≤◌}
use mathlib.Core.Path.{◌≡◌, refl, sym, ap, ◌∙◌, subst}
use mathlib.Core.Logic.{◌↔◌, ◌≢◌, ◌⊎◌, inl, inr}
use mathlib.Core.Bool.{Bool, true, false, not, ◌&&◌, ◌||◌}
use mathlib.Core.Option.{Option, none, some}
use mathlib.Core.List.{List, [], ◌∷◌, ◌++◌, map}
use native.Mathlib.Omega.{arith}
use etik_bildirim_platformu.Prelude.Tests.{Eq, ◌===◌, if◌then◌else◌, ===_iff, Bool-cases}

-- The empty type at any level.
pub data Nothing {ℓ} : Type ℓ where

pub data Everything {ℓ} : Type ℓ where
  trivial : Everything

module _ {ℓ} {A : Type ℓ} where
  abbrev pub length : List A → ℕ
  length [] = 0
  length (x ∷ xs) = suc (length xs)

  abbrev pub any : (A → Bool) → List A → Bool
  any p [] = false
  any p (x ∷ xs) = p x || any p xs

  abbrev pub all : (A → Bool) → List A → Bool
  all p [] = true
  all p (x ∷ xs) = p x && all p xs

  abbrev pub find : (A → Bool) → List A → Option A
  find p [] = none
  find p (x ∷ xs) = if p x then some x else find p xs

  abbrev pub filter : (A → Bool) → List A → List A
  filter p [] = []
  filter p (x ∷ xs) = if p x then x ∷ filter p xs else filter p xs

  abbrev pub is_some : Option A → Bool
  is_some none = false
  is_some (some a) = true

  abbrev pub All {κ} : (A → Type κ) → List A → Type κ
  All P [] = Unit
  All P (x ∷ xs) = P x × All P xs

  -- Membership by recursion, which the tactics take apart.
  abbrev pub In : A → List A → Type ℓ
  In a [] = Nothing
  In a (x ∷ xs) = (a ≡ x) ⊎ In a xs

  any-witness : (p : A → Bool) (xs : List A) → any p xs ≡ true → (x : A) × In x xs × (p x ≡ true)
  any-witness p [] h = cc
  any-witness p (x ∷ xs) h = elim (Bool-cases (p x)) [
    | inl e ↦ (x, inl refl, e)
    | inr e ↦ let (y, i, q) = any-witness p xs (rw e at h) in (y, inr i, q)
  ]

  pub any_of_In : (p : A → Bool) (xs : List A) (x : A) → In x xs → p x ≡ true → any p xs ≡ true
  any_of_In p [] x i q = elim i [ ]
  any_of_In p (y ∷ xs) x (inl i) q = ground arith
  any_of_In p (y ∷ xs) x (inr i) q = ground (arith, any_of_In p xs x i q)

  pub any_iff :
      (p : A → Bool) (xs : List A) → (any p xs ≡ true) ↔ ((x : A) × In x xs × (p x ≡ true))
  any_iff p xs = (any-witness p xs, λ h. any_of_In p xs h.0 h.1 h.2)

module _ {ℓ} {A : Type ℓ} ⦃e : Eq A⦄ where
  -- `xs.includes(a)`
  abbrev pub includes : A → List A → Bool
  includes a [] = false
  includes a (x ∷ xs) = a === x || includes a xs

  pub includes_iff : (a : A) (xs : List A) → (includes a xs ≡ true) ↔ In a xs
  includes_iff a [] = (λ h. cc, λ h. elim h [ ])
  includes_iff a (x ∷ xs) = ground (arith, ===_iff a x, includes_iff a xs)

module _ {ℓ} {A : Type ℓ} where
  -- No element twice.
  abbrev pub Distinct : List A → Type ℓ
  Distinct [] = Everything
  Distinct (x ∷ xs) = (In x xs → ⊥) × Distinct xs

  remove_first : (x : A) (ys : List A) → In x ys → List A
  remove_first x [] i = elim i [ ]
  remove_first x (y ∷ ys) (inl e) = ys
  remove_first x (y ∷ ys) (inr i) = y ∷ remove_first x ys i

  length-remove_first :
      (x : A) (ys : List A) (i : In x ys) → suc (length (remove_first x ys i)) ≡ length ys
  unfolding remove_first
  length-remove_first x [] i = elim i [ ]
  length-remove_first x (y ∷ ys) (inl e) = refl
  length-remove_first x (y ∷ ys) (inr i) = ap suc (length-remove_first x ys i)

  In-remove_first :
      (x z : A) (ys : List A) (i : In x ys) → In z ys → z ≢ x → In z (remove_first x ys i)
  unfolding remove_first
  In-remove_first x z [] i k n = elim i [ ]
  In-remove_first x z (y ∷ ys) (inl e) (inl k) n = absurd (n (k ∙ sym e))
  In-remove_first x z (y ∷ ys) (inl e) (inr k) n = k
  In-remove_first x z (y ∷ ys) (inr i) (inl k) n = inl k
  In-remove_first x z (y ∷ ys) (inr i) (inr k) n = inr (In-remove_first x z ys i k n)

  -- Distinct elements of a list are no more than its length.
  pub length-le_of_Distinct :
      (xs ys : List A) → Distinct xs → ((x : A) → In x xs → In x ys) → length xs ≤ length ys
  length-le_of_Distinct [] ys d h = omega arith
  length-le_of_Distinct (x ∷ xs) ys (fresh, d) h =
      let i = h x (inl refl) in
      let rest = remove_first x ys i in
      omega (
        arith,
        length-le_of_Distinct xs rest d
            (λ z k. In-remove_first x z ys i (h z (inr k)) (λ e. fresh (rw (← e) k))),
        length-remove_first x ys i,
      )

  pub In-filter : (p : A → Bool) (x : A) (xs : List A) → In x xs → p x ≡ true → In x (filter p xs)
  In-filter p x [] i h = elim i [ ]
  In-filter p x (y ∷ xs) (inl e) h = let q : p y ≡ true = rw (← e) h in rw q (inl e)
  In-filter p x (y ∷ xs) (inr i) h = elim (Bool-cases (p y)) [
    | inl q ↦ rw q (inr (In-filter p x xs i h))
    | inr q ↦ rw q (In-filter p x xs i h)
  ]

module _ {ℓ} {A : Type ℓ} where
  pub In-append-one : (x y : A) (xs : List A) → In x (xs ++ y ∷ []) → In x xs ⊎ (x ≡ y)
  In-append-one x y [] (inl e) = inr e
  In-append-one x y [] (inr i) = elim i [ ]
  In-append-one x y (z ∷ xs) (inl e) = inl (inl e)
  In-append-one x y (z ∷ xs) (inr i) = elim (In-append-one x y xs i) [
    | inl k ↦ inl (inr k)
    | inr e ↦ inr e
  ]

  pub In-append : (x : A) (xs ys : List A) → In x xs → In x (xs ++ ys)
  In-append x [] ys i = elim i [ ]
  In-append x (z ∷ xs) ys (inl e) = inl e
  In-append x (z ∷ xs) ys (inr i) = inr (In-append x xs ys i)

  pub In-append-last : (x : A) (xs : List A) → In x (xs ++ x ∷ [])
  In-append-last x [] = inl refl
  In-append-last x (z ∷ xs) = inr (In-append-last x xs)

  pub filter-In : (p : A → Bool) (x : A) (xs : List A) → In x (filter p xs) → In x xs × (p x ≡ true)
  filter-In p x [] i = elim i [ ]
  filter-In p x (y ∷ xs) i = elim (Bool-cases (p y)) [
    | inl e ↦ elim (let k : In x (y ∷ filter p xs) = rw e at i in k) [
      | inl same ↦ (inl same, rw same e)
      | inr later ↦ let (k, q) = filter-In p x xs later in (inr k, q)
    ]
    | inr e ↦ let (k, q) = filter-In p x xs (rw e at i) in (inr k, q)
  ]

pub All-In {ℓ κ} : {A : Type ℓ} (P : A → Type κ) (xs : List A) (x : A) → All P xs → In x xs → P x
All-In P [] x h i = elim i [ ]
All-In P (y ∷ xs) x (here, later) (inl e) = subst P (sym e) here
All-In P (y ∷ xs) x (here, later) (inr i) = All-In P xs x later i

module _ {ℓ κ} {A : Type ℓ} {B : Type κ} (f : A → B) where
  pub In-map : (x : A) (xs : List A) → In x xs → In (f x) (map f xs)
  In-map x [] i = elim i [ ]
  In-map x (y ∷ xs) (inl e) = inl (ap f e)
  In-map x (y ∷ xs) (inr i) = inr (In-map x xs i)

  pub length-map : (xs : List A) → length (map f xs) ≡ length xs
  length-map [] = refl
  length-map (x ∷ xs) = ap suc (length-map xs)

  pub map-append : (xs ys : List A) → map f (xs ++ ys) ≡ map f xs ++ map f ys
  map-append [] ys = refl
  map-append (x ∷ xs) ys = ap (λ zs. f x ∷ zs) (map-append xs ys)

pub All-append {ℓ κ} :
    {A : Type ℓ} (P : A → Type κ) (xs ys : List A) → All P xs → All P ys → All P (xs ++ ys)
All-append P [] ys h k = k
All-append P (x ∷ xs) ys (p, h) k = (p, All-append P xs ys h k)

pub none_of_test {ℓ} : {A : Type ℓ} (o : Option A) → not (is_some o) ≡ true → o ≡ none
none_of_test none h = refl
none_of_test (some a) h = cc
