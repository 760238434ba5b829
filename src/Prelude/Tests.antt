-- ===== src/Prelude/Tests.antt =====
-- Boolean tests on the native numbers, conditionals, options and lists.
use Prim.Native.Nat.{ℕ, compare, Ordering}
use mathlib.Core.Path.{◌≡◌, refl}
use mathlib.Core.Logic.{◌⊎◌, inl, inr}
use mathlib.Core.Bool.{Bool, true, false}
use mathlib.Core.Option.{Option, none, some}
use mathlib.Core.List.{List, [], ◌∷◌}

abbrev pub ltb : ℕ → ℕ → Bool
ltb a b = elim (compare a b) [ Ordering.lt ↦ true | _ ↦ false ]

abbrev pub leb : ℕ → ℕ → Bool
leb a b = elim (compare a b) [ Ordering.gt ↦ false | _ ↦ true ]

abbrev pub eqb : ℕ → ℕ → Bool
eqb a b = elim (compare a b) [ Ordering.eq ↦ true | _ ↦ false ]

infix 1 if◌then◌else◌
abbrev pub if◌then◌else◌ {ℓ} : {A : Type ℓ} → Bool → A → A → A
if true then x else y = x
if false then x else y = y

pub Bool-cases : (b : Bool) → (b ≡ true) ⊎ (b ≡ false)
Bool-cases true = inl refl
Bool-cases false = inr refl

module _ {ℓ} {A : Type ℓ} where
  pub Option-cases : (o : Option A) → (o ≡ none) ⊎ ((a : A) × (o ≡ some a))
  Option-cases none = inl refl
  Option-cases (some a) = inr (a, refl)

  -- `Option::is_some_and`
  abbrev pub is_some_and : Option A → (A → Bool) → Bool
  is_some_and none f = false
  is_some_and (some a) f = f a

  -- `Option::unwrap_or`
  abbrev pub unwrap_or : Option A → A → A
  unwrap_or none d = d
  unwrap_or (some a) d = a

  -- `Option::and_then`
  abbrev pub and_then {κ} : {B : Type κ} → Option A → (A → Option B) → Option B
  and_then none f = none
  and_then (some a) f = f a

  -- `Vec::retain`, `Iterator::filter`
  abbrev pub retain : (A → Bool) → List A → List A
  retain p [] = []
  retain p (x ∷ xs) = let rest = retain p xs in if p x then x ∷ rest else rest

  -- `Iterator::filter_map`
  abbrev pub filter_map {κ} : {B : Type κ} → (A → Option B) → List A → List B
  filter_map f [] = []
  filter_map f (x ∷ xs) =
      let rest = filter_map f xs in elim (f x) [ none ↦ rest | some y ↦ y ∷ rest ]

  -- `for x in xs { s = f x s }`
  abbrev pub for_each {κ} : {S : Type κ} → (A → S → S) → List A → S → S
  for_each f [] s = s
  for_each f (x ∷ xs) s = for_each f xs (f x s)

  -- A property of the state that every round keeps holds after the loop.
  pub for_each_inv {κ μ} :
      {S : Type κ} (P : S → Type μ) (f : A → S → S)
      → ((x : A) (s : S) → P s → P (f x s))
      → (xs : List A) (s : S) → P s
      → P (for_each f xs s)
  for_each_inv P f keep [] s h = h
  for_each_inv P f keep (x ∷ xs) s h = for_each_inv P f keep xs (f x s) (keep x s h)

  -- A two-way branch has a property that both branches have.
  pub if_keep {μ} :
      (P : A → Type μ) (b : Bool) (x y : A)
      → (b ≡ true → P x)
      → (b ≡ false → P y)
      → P (if b then x else y)
  if_keep P true x y h k = h refl
  if_keep P false x y h k = k refl
