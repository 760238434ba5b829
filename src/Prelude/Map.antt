-- ===== src/Prelude/Map.antt =====
-- `HashMap<String, V>` as an association list, with the laws of its operations in `if` form. The
-- order of iteration of the hash table is the order of the list: the theorems hold for every list.
use Prim.Native.String.{String}
use mathlib.Core.Path.{◌≡◌, refl}
use mathlib.Core.Bool.{Bool, true, false}
use mathlib.Core.Option
use mathlib.Core.Option.{Option, none, some}
use mathlib.Core.List.{List, [], ◌∷◌}
use native.Mathlib.Omega.{arith}
use text.Mathlib.Text.{◌==◌}
use text.Mathlib.TextEquality.{eq_iff}
use resonate_sdk_rs.Prelude.Tests.{if◌then◌else◌}

abbrev pub HashMap {ℓ} : Type ℓ → Type ℓ
HashMap V = List (String × V)

module _ {ℓ} {V : Type ℓ} where
  unfoldable pub get : String → HashMap V → Option V
  get k [] = none
  get k ((j, v) ∷ m) = if j == k then some v else get k m

  unfoldable pub insert : String → V → HashMap V → HashMap V
  insert k v [] = (k, v) ∷ []
  insert k v ((j, w) ∷ m) = if j == k then (k, v) ∷ m else (j, w) ∷ insert k v m

  -- `if let Some(v) = map.get_mut(k) { *v = f(v) }`
  unfoldable pub modify : String → (V → V) → HashMap V → HashMap V
  modify k f [] = []
  modify k f ((j, w) ∷ m) = if j == k then (j, f w) ∷ m else (j, w) ∷ modify k f m

  unfoldable pub remove : String → HashMap V → HashMap V
  remove k [] = []
  remove k ((j, w) ∷ m) = let rest = remove k m in if j == k then rest else (j, w) ∷ rest

  -- `for v in map.values_mut() { *v = f(v) }`
  unfoldable pub modify_all : (V → V) → HashMap V → HashMap V
  modify_all f [] = []
  modify_all f ((j, w) ∷ m) = (j, f w) ∷ modify_all f m

  unfoldable pub values : HashMap V → List V
  values [] = []
  values ((j, w) ∷ m) = w ∷ values m

  unfoldable pub contains_key : String → HashMap V → Bool
  contains_key k m = elim (get k m) [ none ↦ false | some v ↦ true ]

  pub get-insert :
      (k j : String) (v : V) (m : HashMap V)
      → get j (insert k v m) ≡ (if k == j then some v else get j m)
  unfolding get insert
  get-insert k j v [] = refl
  get-insert k j v ((i, w) ∷ m) =
      ground (arith, eq_iff k j, eq_iff i k, eq_iff i j, get-insert k j v m)

  pub get-modify :
      (k j : String) (f : V → V) (m : HashMap V)
      → get j (modify k f m) ≡ (if k == j then Option.map f (get j m) else get j m)
  unfolding get modify
  get-modify k j f [] = ground arith
  get-modify k j f ((i, w) ∷ m) =
      ground (arith, eq_iff k j, eq_iff i k, eq_iff i j, get-modify k j f m)

  pub get-remove :
      (k j : String) (m : HashMap V) → get j (remove k m) ≡ (if k == j then none else get j m)
  unfolding get remove
  get-remove k j [] = ground arith
  get-remove k j ((i, w) ∷ m) = ground (arith, eq_iff k j, eq_iff i k, eq_iff i j, get-remove k j m)

  pub get-modify_all :
      (j : String) (f : V → V) (m : HashMap V) → get j (modify_all f m) ≡ Option.map f (get j m)
  unfolding get modify_all
  get-modify_all j f [] = refl
  get-modify_all j f ((i, w) ∷ m) = ground (arith, get-modify_all j f m)
