-- ===== src/Context/Naming.antt =====
-- resonate/src/context.rs: the ids that a context hands out.
use resonate_sdk_rs.Prelude.{ℕ, zero, suc, ◌+◌, ◌%◌, ◌<◌, ◌≡◌, ◌≢◌, refl, sym, ap, ◌∙◌, arith}
use resonate_sdk_rs.Prelude.Decimal.{to_string, to_string_inj}
use resonate_sdk_rs.Ids.{join_id, join_id_inj}
use resonate_sdk_rs.Context.{Context, next_id}

-- The context after `n` calls of `next_id`.
unfoldable pub after : ℕ → Context → Context
after zero c = c
after (suc n) c = (next_id (after n c)).1

after-id : (n : ℕ) (c : Context) → (after n c).id ≡ c.id
unfolding after next_id
after-id zero c = refl
after-id (suc n) c = after-id n c

after-seq : (n : ℕ) (c : Context) → c.seq + n < 4294967296 → (after n c).seq ≡ c.seq + n
unfolding after next_id
after-seq zero c h = omega arith
after-seq (suc n) c h =
    let e = after-seq n c (omega arith) in ap (λ k. (k + 1) % 4294967296) e ∙ omega arith

-- The ids of a context differ until its counter wraps.
pub next_id-distinct :
    (i j : ℕ) (c : Context)
    → i < j
    → c.seq + j < 4294967296
    → (next_id (after i c)).0 ≢ (next_id (after j c)).0
unfolding next_id
next_id-distinct i j c h k e =
    let si : (after i c).seq ≡ c.seq + i = after-seq i c (omega arith) in
    let sj : (after j c).seq ≡ c.seq + j = after-seq j c k in
    let same : join_id c.id (to_string (c.seq + i)) ≡ join_id c.id (to_string (c.seq + j)) =
      sym (ap (λ x. join_id x (to_string (c.seq + i))) (after-id i c))
      ∙ sym (ap (λ n. join_id (after i c).id (to_string n)) si)
      ∙ e
      ∙ ap (λ n. join_id (after j c).id (to_string n)) sj
      ∙ ap (λ x. join_id x (to_string (c.seq + j))) (after-id j c) in
    let eq : c.seq + i ≡ c.seq + j =
      to_string_inj (c.seq + i) (c.seq + j)
        (join_id_inj c.id (to_string (c.seq + i)) (to_string (c.seq + j)) same) in
    omega (arith, eq, h)
