-- ===== src/Ids.antt =====
-- resonate/src/ids.rs: the ids of promises. The origin of an id is what stands before its first `:`.
use Prim.Native.Char.{code}
use Prim.Native.String.{[] as empty, ◌∷◌ as ◌∷ᵗ◌}
use text.Mathlib.TextLemmas.{nil-append, cons-append, append_cancel_left}
use resonate_sdk_rs.Prelude.{
  ℕ, String, ◌≡◌, refl, ap, sym, ◌∙◌, inl, inr, Bool, true, false, ◌||◌, ◌==◌, eqb, arith, List, [],
  ◌∷◌, Bool-cases, if◌then◌else◌, concat,
}
use resonate_sdk_rs.Error.{Result, ok, err, invalid_id}

-- `ORIGIN_SEP` and `LINEAGE_SEP`, by their codes.
abbrev pub origin_sep : ℕ
origin_sep = b':'

-- `str::contains` of a character.
unfoldable pub contains_char : ℕ → String → Bool
contains_char d empty = false
contains_char d (c ∷ᵗ s) = eqb (code c) d || contains_char d s

-- `id.split(d).next()`
unfoldable pub before : ℕ → String → String
before d empty = empty
before d (c ∷ᵗ s) = let rest = before d s in if eqb (code c) d then empty else c ∷ᵗ rest

unfoldable pub join_id : String → String → String
join_id ancestor segment =
    concat ancestor (concat (if contains_char origin_sep ancestor then "." else ":") segment)

unfoldable pub origin_of : String → String
origin_of id = before origin_sep id

unfoldable pub validate_root_id : String → Result (Unit {0})
validate_root_id id =
    if id == ""
    then err (invalid_id id "id must not be empty")
    else if contains_char 0 id
    then err (invalid_id id "id must not contain null bytes")
    else if contains_char origin_sep id
    then err (
        invalid_id id
          "id must not contain ':': it separates the origin from the lineage in the ids the SDK mints below this one, so an id holding one could never be split back out")
    else ok tt

-- An id that is minted below a root, segment by segment.
abbrev pub lineage : String → List String → String
lineage id [] = id
lineage id (segment ∷ segments) = lineage (join_id id segment) segments

-- A text with the character: what follows does not count.
before-concat :
    (d : ℕ) (s t : String) → contains_char d s ≡ true → before d (concat s t) ≡ before d s
unfolding contains_char before
before-concat d empty t e = absurd (ground arith)
before-concat d (c ∷ᵗ s) t e = elim (Bool-cases (eqb (code c) d)) [
  | inl i ↦ ap (before d) (cons-append c s t) ∙ rw i
  | inr i ↦
      ap (before d) (cons-append c s t)
      ∙ rw i (ap (λ r. c ∷ᵗ r) (before-concat d s t (ground arith)))
]

-- A text without it, that is followed by it.
before-concat_sep :
    (d : ℕ) (s t : String) → contains_char d s ≡ false → before d t ≡ "" → before d (concat s t) ≡ s
unfolding contains_char before
before-concat_sep d empty t e h = ap (before d) (nil-append t) ∙ h
before-concat_sep d (c ∷ᵗ s) t e h =
    let i : eqb (code c) d ≡ false = ground arith in
    ap (before d) (cons-append c s t)
    ∙ rw i (ap (λ r. c ∷ᵗ r) (before-concat_sep d s t (ground arith) h))

before_all : (d : ℕ) (s : String) → contains_char d s ≡ false → before d s ≡ s
unfolding contains_char before
before_all d empty e = refl
before_all d (c ∷ᵗ s) e =
    let i : eqb (code c) d ≡ false = ground arith in
    rw i (ap (λ r. c ∷ᵗ r) (before_all d s (ground arith)))

pub origin_of-join_id :
    (ancestor segment : String) → origin_of (join_id ancestor segment) ≡ origin_of ancestor
unfolding origin_of join_id before
origin_of-join_id ancestor segment = elim (Bool-cases (contains_char origin_sep ancestor)) [
  | inl below ↦ rw below (before-concat origin_sep ancestor _ below)
  | inr root ↦ rw root (
      before-concat_sep origin_sep ancestor (concat ":" segment) root (colon segment)
      ∙ sym (before_all origin_sep ancestor root))
]
  where
    colon : (t : String) → before origin_sep (concat ":" t) ≡ ""
    colon t = ap (before origin_sep) (cons-append _ "" t) ∙ refl

origin_of-lineage_any :
    (id : String) (segments : List String) → origin_of (lineage id segments) ≡ origin_of id
origin_of-lineage_any id [] = refl
origin_of-lineage_any id (segment ∷ segments) =
    origin_of-lineage_any (join_id id segment) segments ∙ origin_of-join_id id segment

validate_root_id-root :
    (id : String) → validate_root_id id ≡ ok tt → contains_char origin_sep id ≡ false
unfolding validate_root_id
validate_root_id-root id e = ground arith

before_lacks : (d : ℕ) (s : String) → contains_char d (before d s) ≡ false
unfolding contains_char before
before_lacks d empty = refl
before_lacks d (c ∷ᵗ s) = elim (Bool-cases (eqb (code c) d)) [
  | inl i ↦ rw i refl
  | inr i ↦ rw (i, before, contains_char) (ground (arith, before_lacks d s))
]

-- An origin has no lineage.
pub origin_of-origin_of : (id : String) → origin_of (origin_of id) ≡ origin_of id
unfolding origin_of
origin_of-origin_of id = before_all origin_sep (before origin_sep id) (before_lacks origin_sep id)

-- The origin of every id that is minted below a root which `validate_root_id` accepts is that root.
pub origin_of-lineage :
    (root : String) (segments : List String)
    → validate_root_id root ≡ ok tt
    → origin_of (lineage root segments) ≡ root
unfolding origin_of
origin_of-lineage root segments e =
    origin_of-lineage_any root segments ∙ before_all origin_sep root (validate_root_id-root root e)

-- Different segments below one ancestor make different ids.
pub join_id_inj : (ancestor s t : String) → join_id ancestor s ≡ join_id ancestor t → s ≡ t
unfolding join_id
join_id_inj ancestor s t e =
    let sep : String = if contains_char origin_sep ancestor then "." else ":" in
    append_cancel_left sep s t (append_cancel_left ancestor (concat sep s) (concat sep t) e)
