-- ===== src/Prelude/Set.antt =====
-- `HashSet<String>` as a list of texts, with membership as a Boolean.
use Prim.Native.String.{String}
use mathlib.Core.Path.{◌≡◌}
use mathlib.Core.Bool.{Bool, true, false, not, ◌&&◌, ◌||◌}
use mathlib.Core.List.{List, [], ◌∷◌}
use native.Mathlib.Omega.{arith}
use text.Mathlib.Text.{◌==◌}
use text.Mathlib.TextEquality.{eq_iff}
use resonate_sdk_rs.Prelude.Tests.{if◌then◌else◌}

abbrev pub HashSet : Type 0
HashSet = List String

unfoldable pub contains : String → HashSet → Bool
contains k [] = false
contains k (j ∷ s) = j == k || contains k s

unfoldable pub insert : String → HashSet → HashSet
insert k s = if contains k s then s else k ∷ s

unfoldable pub remove : String → HashSet → HashSet
remove k [] = []
remove k (j ∷ s) = let rest = remove k s in if j == k then rest else j ∷ rest

abbrev pub is_empty : HashSet → Bool
is_empty [] = true
is_empty (_ ∷ _) = false

pub contains-insert :
    (k j : String) (s : HashSet) → contains j (insert k s) ≡ (k == j || contains j s)
unfolding insert contains
contains-insert k j s = ground (arith, eq_iff k j)

pub contains-remove :
    (k j : String) (s : HashSet) → contains j (remove k s) ≡ (not (k == j) && contains j s)
unfolding remove contains
contains-remove k j [] = ground arith
contains-remove k j (i ∷ s) =
    ground (arith, eq_iff k j, eq_iff i k, eq_iff i j, contains-remove k j s)
