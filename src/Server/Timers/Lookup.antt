-- ===== src/Server/Timers/Lookup.antt =====
-- resonate/src/network.rs: what a write of a deadline, and its removal, leave to be found.
use resonate_sdk_rs.Prelude.{
  ℕ, String, ◌≡◌, not, ◌==◌, eq_iff, List, [], ◌∷◌, Option, none, some, arith, retain,
  if◌then◌else◌,
}
use mathlib.Core.Option
use resonate_sdk_rs.Prelude.I64.{ℤ}
use resonate_sdk_rs.Server.{PTimeout, TTimeout}
use resonate_sdk_rs.Server.Timers.{find_p, find_t, upsert_p, upsert_t}

-- The deadline that is kept of a promise, and the kind of deadline that is kept of a task.
abbrev pub p_deadline : String → List PTimeout → Option ℤ
p_deadline id ps = Option.map (λ pt. pt.timeout) (find_p id ps)

abbrev pub t_kind : String → List TTimeout → Option ℕ
t_kind id ts = Option.map (λ t. t.typ) (find_t id ts)

pub p_deadline-upsert :
    (id k : String) (at : ℤ) (ps : List PTimeout)
    → p_deadline k (upsert_p id at ps) ≡ (if id == k then some at else p_deadline k ps)
unfolding find_p upsert_p
p_deadline-upsert id k at [] = ground arith
p_deadline-upsert id k at (pt ∷ ps) =
    ground (arith, eq_iff id k, eq_iff pt.id id, eq_iff pt.id k, p_deadline-upsert id k at ps)

pub p_deadline-retain :
    (id k : String) (ps : List PTimeout)
    → p_deadline k (retain (λ pt. not (pt.id == id)) ps)
      ≡ (if id == k then none else p_deadline k ps)
unfolding find_p
p_deadline-retain id k [] = ground arith
p_deadline-retain id k (pt ∷ ps) =
    ground (arith, eq_iff id k, eq_iff pt.id id, eq_iff pt.id k, p_deadline-retain id k ps)

pub t_kind-upsert :
    (id k : String) (typ : ℕ) (at : ℤ) (ts : List TTimeout)
    → t_kind k (upsert_t id typ at ts) ≡ (if id == k then some typ else t_kind k ts)
unfolding find_t upsert_t
t_kind-upsert id k typ at [] = ground arith
t_kind-upsert id k typ at (t ∷ ts) =
    ground (arith, eq_iff id k, eq_iff t.id id, eq_iff t.id k, t_kind-upsert id k typ at ts)

pub t_kind-retain :
    (id k : String) (ts : List TTimeout)
    → t_kind k (retain (λ t. not (t.id == id)) ts) ≡ (if id == k then none else t_kind k ts)
unfolding find_t
t_kind-retain id k [] = ground arith
t_kind-retain id k (t ∷ ts) =
    ground (arith, eq_iff id k, eq_iff t.id id, eq_iff t.id k, t_kind-retain id k ts)
