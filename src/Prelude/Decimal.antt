-- ===== src/Prelude/Decimal.antt =====
-- `n.to_string()` of an unsigned integer, and the value that its digits read as.
use Prim.Native.Nat.{ℕ, zero, suc, ◌+◌, ◌-◌, ◌*◌, ◌/◌, ◌%◌, ◌≤◌, ◌<◌}
use Prim.Native.Char.{code}
use Prim.Native.String.{String}
use mathlib.Core.Path.{◌≡◌, refl, ap, sym, ◌∙◌}
use mathlib.Core.Logic.{inl, inr}
use native.Mathlib.Omega.{arith}
use text.Mathlib.TextLemmas.{nil-append, cons-append}
use resonate_sdk_rs.Prelude.Tests.{ltb, if◌then◌else◌, Bool-cases}
use resonate_sdk_rs.Prelude.I64.{ℤ, pos, negsuc}
use resonate_sdk_rs.Prelude.Text.{concat}

abbrev pub digit : ℕ → String
digit zero = "0"
digit (suc zero) = "1"
digit (suc (suc zero)) = "2"
digit (suc (suc (suc zero))) = "3"
digit (suc (suc (suc (suc zero)))) = "4"
digit (suc (suc (suc (suc (suc zero))))) = "5"
digit (suc (suc (suc (suc (suc (suc zero)))))) = "6"
digit (suc (suc (suc (suc (suc (suc (suc zero))))))) = "7"
digit (suc (suc (suc (suc (suc (suc (suc (suc zero)))))))) = "8"
digit _ = "9"

-- The fuel bounds the number of digits.
unfoldable pub show_from : ℕ → ℕ → String
show_from zero n = digit n
show_from (suc f) n =
    let front = show_from f (n / 10) in if ltb n 10 then digit n else concat front (digit (n % 10))

-- `n` has at most `n` digits, or one.
unfoldable pub to_string : ℕ → String
unfolding show_from
to_string n = show_from n n

-- `to_string()` of a signed integer.
unfoldable pub show_i64 : ℤ → String
show_i64 (pos n) = to_string n
show_i64 (negsuc n) = concat "-" (to_string (suc n))

read : ℕ → String → ℕ
read acc String.[] = acc
read acc (String.◌∷◌ c s) = read (10 * acc + (code c - 48)) s

read-concat : (acc : ℕ) (s t : String) → read acc (concat s t) ≡ read (read acc s) t
unfolding read
read-concat acc String.[] t = ap (read acc) (nil-append t)
read-concat acc (String.◌∷◌ c s) t =
    ap (read acc) (cons-append c s t) ∙ read-concat (10 * acc + (code c - 48)) s t

read-digit : (acc d : ℕ) → d < 10 → read acc (digit d) ≡ 10 * acc + d
unfolding read
read-digit acc zero h = omega arith
read-digit acc (suc zero) h = omega arith
read-digit acc (suc (suc zero)) h = omega arith
read-digit acc (suc (suc (suc zero))) h = omega arith
read-digit acc (suc (suc (suc (suc zero)))) h = omega arith
read-digit acc (suc (suc (suc (suc (suc zero))))) h = omega arith
read-digit acc (suc (suc (suc (suc (suc (suc zero)))))) h = omega arith
read-digit acc (suc (suc (suc (suc (suc (suc (suc zero))))))) h = omega arith
read-digit acc (suc (suc (suc (suc (suc (suc (suc (suc zero)))))))) h = omega arith
read-digit acc (suc (suc (suc (suc (suc (suc (suc (suc (suc k))))))))) h = omega arith

read-show_from : (f n : ℕ) → n ≤ f → read 0 (show_from f n) ≡ n
unfolding show_from
read-show_from zero n h = read-digit 0 n (omega arith) ∙ omega arith
read-show_from (suc f) n h = elim (Bool-cases (ltb n 10)) [
  | inl small ↦ rw small (read-digit 0 n (ground arith) ∙ omega arith)
  | inr large ↦ rw large (
      read-concat 0 (show_from f (n / 10)) (digit (n % 10))
      ∙ ap (λ a. read a (digit (n % 10))) (read-show_from f (n / 10) (ground arith))
      ∙ read-digit (n / 10) (n % 10) (omega arith)
      ∙ omega arith)
]

-- Different numbers print differently.
pub to_string_inj : (m n : ℕ) → to_string m ≡ to_string n → m ≡ n
unfolding to_string
to_string_inj m n e =
    sym (read-show_from m m (omega arith)) ∙ ap (read 0) e ∙ read-show_from n n (omega arith)

to_string_example : to_string 4096 ≡ "4096"
unfolding to_string show_from
to_string_example = refl
