-- ===== src/Prelude/I64.antt =====
-- `i64` as an integer over the native numbers: comparisons, the wrapping sum of a release build, the
-- saturating sum, and `str::parse::<i64>`.
use Prim.Native.Nat.{ℕ, suc, ◌+◌, ◌-◌, ◌*◌, ◌≤◌}
use Prim.Native.Char.{code}
use Prim.Native.String.{String}
use mathlib.Core.Path.{◌≡◌, refl}
use mathlib.Core.Bool.{Bool, ◌&&◌}
use mathlib.Core.Option.{Option, none, some}
use native.Mathlib.Omega.{arith}
use resonate_sdk_rs.Prelude.Tests.{ltb, leb, eqb, if◌then◌else◌}

-- `negsuc n` is -(n + 1).
pub data ℤ : Type 0 where
  pos : ℕ → ℤ
  negsuc : ℕ → ℤ

abbrev pub pos_part : ℤ → ℕ
pos_part (pos n) = n
pos_part (negsuc n) = 0

abbrev pub neg_part : ℤ → ℕ
neg_part (pos n) = 0
neg_part (negsuc n) = suc n

-- a - b, as an integer.
abbrev pub sub_ℕ : ℕ → ℕ → ℤ
sub_ℕ a b = if leb b a then pos (a - b) else negsuc (b - a - 1)

infixl 65 ◌+ℤ◌
infix 50 ◌≤ℤ◌
unfoldable pub ◌+ℤ◌ : ℤ → ℤ → ℤ
a +ℤ b = sub_ℕ (pos_part a + pos_part b) (neg_part a + neg_part b)

abbrev pub ◌≤ℤ◌ : ℤ → ℤ → Type 0
a ≤ℤ b = pos_part a + neg_part b ≤ pos_part b + neg_part a

-- a <= b
abbrev pub leb_ℤ : ℤ → ℤ → Bool
leb_ℤ a b = leb (pos_part a + neg_part b) (pos_part b + neg_part a)

-- a < b
abbrev pub ltb_ℤ : ℤ → ℤ → Bool
ltb_ℤ a b = ltb (pos_part a + neg_part b) (pos_part b + neg_part a)

-- a == b
abbrev pub eqb_ℤ : ℤ → ℤ → Bool
eqb_ℤ a b = eqb (pos_part a + neg_part b) (pos_part b + neg_part a)

abbrev pub max_ℕ : ℕ
max_ℕ = 9223372036854775807

abbrev pub max_i64 : ℤ
max_i64 = pos max_ℕ

abbrev pub min_i64 : ℤ
min_i64 = negsuc max_ℕ

-- The sum of two values in range passes the range by less than one modulus, 2 ^ 64.
unfoldable pub wrap_i64 : ℤ → ℤ
wrap_i64 z =
    if ltb_ℤ max_i64 z
    then z +ℤ negsuc 18446744073709551615
    else if ltb_ℤ z min_i64
    then z +ℤ pos 18446744073709551616
    else z

-- a + b
unfoldable pub add_i64 : ℤ → ℤ → ℤ
unfolding ◌+ℤ◌ wrap_i64
add_i64 a b = wrap_i64 (a +ℤ b)

-- a.saturating_add(b)
unfoldable pub saturating_add : ℤ → ℤ → ℤ
unfolding ◌+ℤ◌
saturating_add a b =
    let z = a +ℤ b in if ltb_ℤ max_i64 z then max_i64 else if ltb_ℤ z min_i64 then min_i64 else z

-- a.max(b)
abbrev pub max_ℤ : ℤ → ℤ → ℤ
max_ℤ a b = if leb_ℤ a b then b else a

-- The digits of a decimal number, read after the value `n`.
abbrev digits_from : ℕ → String → Option ℕ
digits_from n String.[] = some n
digits_from n (String.◌∷◌ c s) =
    let rest = digits_from (10 * n + (code c - b'0')) s in
    if leb b'0' (code c) && leb (code c) b'9' then rest else none

-- At least one digit.
abbrev digits : String → Option ℕ
digits String.[] = none
digits (String.◌∷◌ c s) = digits_from 0 (String.◌∷◌ c s)

abbrev in_range : Option ℕ → (ℕ → ℤ) → Option ℤ
in_range none f = none
in_range (some n) f = let z = f n in if leb_ℤ z max_i64 && leb_ℤ min_i64 z then some z else none

-- `s.parse::<i64>().ok()`: an optional sign, then digits, the value in range.
unfoldable pub parse_i64 : String → Option ℤ
parse_i64 String.[] = none
parse_i64 (String.◌∷◌ c s) =
    if eqb (code c) b'-'
    then in_range (digits s) (sub_ℕ 0)
    else if eqb (code c) b'+'
    then in_range (digits s) pos
    else in_range (digits (String.◌∷◌ c s)) pos

-- Below the largest value the sum does not wrap.
pub add_i64-pos : (a b : ℕ) → a + b ≤ max_ℕ → add_i64 (pos a) (pos b) ≡ pos (a + b)
unfolding add_i64
add_i64-pos a b h = ground arith

parse_i64_negative : parse_i64 "-120" ≡ some (negsuc 119)
unfolding parse_i64
parse_i64_negative = refl

parse_i64_overflow : parse_i64 "9223372036854775808" ≡ none
unfolding parse_i64
parse_i64_overflow = refl
