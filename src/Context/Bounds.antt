-- ===== src/Context/Bounds.antt =====
-- resonate/src/context.rs: the deadlines of children.
use resonate_sdk_rs.Prelude.{ℕ, ◌+◌, ◌≤◌, ◌%◌, ◌≡◌, some, arith, ltb, if◌then◌else◌}
use resonate_sdk_rs.Prelude.I64.{ℤ, pos, max_ℕ, ◌≤ℤ◌, saturating_add}
use resonate_sdk_rs.Context.{Context, as_i64, min_ℤ, child_timeout}

min_right : (a b : ℤ) → min_ℤ a b ≤ℤ b
min_right a b = ground arith

as_i64-pos : (n : ℕ) → n ≤ max_ℕ → as_i64 n ≡ pos n
unfolding as_i64
as_i64-pos n h = let e : n % 18446744073709551616 ≡ n = omega arith in rw (as_i64, e) (ground arith)

-- The sum of two values that are not negative stops at the largest value.
saturating_add-pos :
    (a b : ℕ)
    → saturating_add (pos a) (pos b) ≡ (if ltb max_ℕ (a + b) then pos max_ℕ else pos (a + b))
unfolding saturating_add
saturating_add-pos a b = ground arith

-- With a duration that an i64 holds and a clock that is not negative, the deadline of a child is no later
-- than its parent's nor than the duration from now, and no earlier than now unless its parent's is.
pub child_timeout-bounds :
    (n millis : ℕ) (c : Context)
    → n ≤ max_ℕ
    → millis ≤ max_ℕ
    → (child_timeout (pos n) (some millis) c ≤ℤ c.timeout_at)
      × (child_timeout (pos n) (some millis) c ≤ℤ pos (n + millis))
      × (min_ℤ (pos n) c.timeout_at ≤ℤ child_timeout (pos n) (some millis) c)
unfolding child_timeout
child_timeout-bounds n millis c h k =
    rw (as_i64-pos millis k, saturating_add-pos n millis) (ground arith, ground arith, ground arith)
