-- ===== src/Sender/Answers.antt =====
-- resonate/src/send.rs with resonate/src/transport.rs: which answers a request accepts, and the two
-- forms of task creation.
use resonate_sdk_rs.Prelude.{
  ℕ, String, ◌≡◌, refl, sym, ap, ◌∙◌, subst, ◌⊎◌, inl, inr, ◌<◌, eq_iff, ◌&&◌, not, Bool, true,
  false, arith, eqb, leb, Bool-cases,
}
use resonate_sdk_rs.Prelude.I64.{ℤ}
use resonate_sdk_rs.Error.{
  Result, ok, err, ok_inj, Result-cases, Serde-cases, converted, from_serde, server_error,
}
use resonate_sdk_rs.Json.{Json}
use resonate_sdk_rs.Effects.{PromiseCreateReq}
use resonate_sdk_rs.Transport.{Network, kind_of, corr_id_of, validate, read_response, send}
use resonate_sdk_rs.Sender.{TaskAcquireResult, TaskCreateOutcome, created, conflict}
use resonate_sdk_rs.Sender.Envelope.{
  Payload, create, Sender, status_of, data_of, error_message, accept, make_head, send_envelope,
  parse_task_acquire,
}
use resonate_sdk_rs.Sender.Requests.{
  reading, outcome, send_task_create, task_create, task_create_or_conflict,
}

-- A response that a request accepts.
abbrev pub IsAnswer : (J : Json) → String → String → Bool → ℕ → J.Value → J.Value → Type 0
IsAnswer J kind corr_id allow_409 status content response =
    (kind_of J response ≡ kind)
    × (corr_id_of J response ≡ corr_id)
    × (status ≡ status_of J response)
    × (content ≡ data_of J response)
    × (status < 400 ⊎ ((allow_409 ≡ true) × (status ≡ 409)))

validate_inv :
    (J : Json) (kind corr_id : String) (response got : J.Value)
    → validate J kind corr_id response ≡ ok got
    → (kind_of J response ≡ kind) × (corr_id_of J response ≡ corr_id) × (response ≡ got)
unfolding validate
validate_inv J kind corr_id response got e = (
  ground (arith, eq_iff (kind_of J response) kind),
  ground (arith, eq_iff (corr_id_of J response) corr_id),
  ground arith,
)

-- A validated answer, from its text.
abbrev Validated :
    {J : Json} {W : Type 0} → Network J W → String → String → Result String → J.Value → Type 0
Validated {J} N kind corr_id answer got =
    (text : String) × (answer ≡ ok text)
    × (N.from_str text ≡ converted got)
    × (kind_of J got ≡ kind)
    × (corr_id_of J got ≡ corr_id)

accept_inv :
    (J : Json) (allow_409 : Bool) (response content : J.Value) (status : ℕ)
    → accept J allow_409 response ≡ ok (status, content)
    → (status ≡ status_of J response)
      × (content ≡ data_of J response)
      × (status < 400 ⊎ ((allow_409 ≡ true) × (status ≡ 409)))
unfolding accept
accept_inv J allow_409 response content status =
    let s = status_of J response in
    elim (Bool-cases (leb 400 s && not (allow_409 && eqb s 409))) [
      | inl refused ↦ rw (refused, accept) (λ h. absurd (ground arith))
      | inr passes ↦
          rw (passes, accept)
            (λ h.
              let e : status ≡ s = sym (ap (λ a. a.0) (ok_inj h)) in
              (
                e,
                sym (ap (λ a. a.1) (ok_inj h)),
                elim (Bool-cases (leb 400 s)) [
                  | inr small ↦ inl (ground arith)
                  | inl large ↦ inr (ground arith, ground arith)
                ],
              ))
    ]

module _ {J : Json} {W : Type 0} where
  read_response_inv :
      (N : Network J W) (kind corr_id : String) (answer : Result String) (got : J.Value)
      → read_response N kind corr_id answer ≡ ok got
      → Validated N kind corr_id answer got
  unfolding read_response
  read_response_inv N kind corr_id (err e) got = λ h. absurd (ground arith)
  read_response_inv N kind corr_id (ok text) got = elim (Serde-cases (N.from_str text)) [
    | inr (m, o) ↦ rw (o, read_response) (λ h. absurd (ground arith))
    | inl (response, o) ↦
        rw (o, read_response)
          (λ h.
            let (k, c, same) = validate_inv J kind corr_id response got h in
            (
              text,
              refl,
              o ∙ ap converted same,
              subst (λ r. kind_of J r ≡ kind) same k,
              subst (λ r. corr_id_of J r ≡ corr_id) same c,
            ))
  ]

  -- What a request accepts: its result and its world are those of an answer of the network to its one
  -- text, which parses to a response of the request's kind and correlation id, and the result is the
  -- response's status and data; the status is below 400, or it is a 409 that the request allows.
  pub send_envelope-IsAnswer :
      (S : Sender J W) (kind : String) (payload : Payload J.Value) (allow_409 : Bool) (w : W)
      (status : ℕ) (content : J.Value)
      → (send_envelope S kind payload allow_409 w).0 ≡ ok (status, content)
      → (body : String) × (text : String) × (response : J.Value) × (S.network.send_text body w
          ≡ (ok text, (send_envelope S kind payload allow_409 w).1))
        × (S.network.from_str text ≡ converted response)
        × IsAnswer J kind (make_head S w).corr_id allow_409 status content response
  unfolding send_envelope send
  send_envelope-IsAnswer S kind payload allow_409 w status content =
      let head = make_head S w in
      elim (Result-cases
        (from_serde (S.print (record { kind = kind; head = head; content = payload })))) [
          | inr (e, o) ↦ rw (o, send_envelope) (λ h. absurd (ground arith))
          | inl (body, o) ↦
              let answer = S.network.send_text body w in
              elim (Result-cases (read_response S.network kind head.corr_id answer.0)) [
                | inr (e, u) ↦ rw (o, u, send_envelope, send) (λ h. absurd (ground arith))
                | inl (response, u) ↦
                    rw (o, u, send_envelope, send)
                      (λ h.
                        let (text, q, f, k, c) =
                          read_response_inv S.network kind head.corr_id answer.0 response u in
                        let (st, ct, below) = accept_inv J allow_409 response content status h in
                        (body, text, response, ap (λ r. (r, answer.1)) q, f, (k, c, st, ct, below)))
              ]
        ]

-- One answer, as `task_create` and as `task_create_or_conflict` return it.
abbrev pub Agree :
    {V : Type 0} → Result (TaskAcquireResult V) → Result (TaskCreateOutcome V) → Type 0
Agree a (ok (created result)) = a ≡ ok result
Agree a (ok conflict) = (message : String) × (a ≡ err (server_error 409 message))
Agree a (err e) = a ≡ err e

module _ {J : Json} {W : Type 0} (S : Sender J W) where
  outcome-Agree :
      (status : ℕ) (content : J.Value)
      → eqb status 409 ≡ false
      → Agree (parse_task_acquire S content) (outcome S status content)
  outcome-Agree status content e = elim (Result-cases (parse_task_acquire S content)) [
    | inl (result, o) ↦ rw (e, o) refl
    | inr (x, o) ↦ rw (e, o) refl
  ]

  accept-Agree :
      (response : J.Value) (w : W)
      → Agree
          (reading (λ status. parse_task_acquire S) (accept J false response, w)).0
          (reading (outcome S) (accept J true response, w)).0
  unfolding accept
  accept-Agree response w =
      let s = status_of J response in
      elim (Bool-cases (eqb s 409)) [
        | inl e ↦
            let large : leb 400 s ≡ true = ground arith in
            let same : s ≡ 409 = ground arith in
            let answered : outcome S s (data_of J response) ≡ ok conflict = rw e refl in
            rw (e, large, accept, answered)
              (
                error_message J s (data_of J response),
                ap (λ n. err (server_error n (error_message J s (data_of J response)))) same,
              )
        | inr e ↦ elim (Bool-cases (leb 400 s)) [
          | inl large ↦ rw (e, large, accept) refl
          | inr small ↦ rw (e, small, accept) (outcome-Agree s (data_of J response) e)
        ]
      ]

  reading_world :
      (a b : Result (ℕ × J.Value)) (w : W)
      → (reading (λ status. parse_task_acquire S) (a, w)).1 ≡ (reading (outcome S) (b, w)).1
  reading_world (ok a) (ok b) w = refl
  reading_world (ok a) (err e) w = refl
  reading_world (err e) (ok b) w = refl
  reading_world (err e) (err f) w = refl

  -- The two forms of task creation differ on a conflict only: they leave the same world, and where
  -- `task_create_or_conflict` returns Created, `task_create` returns the same result, where it returns
  -- Conflict, `task_create` returns a server error 409, and where it fails, `task_create` fails alike.
  pub task_create-Agree :
      (pid : String) (ttl : ℤ) (action : PromiseCreateReq J.Value) (w : W)
      → Agree (task_create S pid ttl action w).0 (task_create_or_conflict S pid ttl action w).0
        × ((task_create S pid ttl action w).1 ≡ (task_create_or_conflict S pid ttl action w).1)
  unfolding task_create task_create_or_conflict send_task_create send_envelope
  task_create-Agree pid ttl action w =
      let head = make_head S w in
      let payload : Payload J.Value =
        create pid ttl (record { kind = "promise.create"; head = head; content = action }) in
      elim (Result-cases
        (from_serde (S.print (record { kind = "task.create"; head = head; content = payload })))) [
          | inr (e, o) ↦ rw (o, send_envelope) (refl, refl)
          | inl (body, o) ↦
              let answer = send S.network "task.create" head.corr_id body w in
              elim (Result-cases answer.0) [
                | inr (e, u) ↦ rw (o, u, send_envelope) (refl, refl)
                | inl (response, u) ↦
                    rw (o, u, send_envelope)
                      (
                        accept-Agree response answer.1,
                        reading_world (accept J false response) (accept J true response) answer.1,
                      )
              ]
        ]
