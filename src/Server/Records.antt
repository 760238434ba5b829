-- ===== src/Server/Records.antt =====
-- resonate/src/network.rs: what a client sees of a promise, its record.
use resonate_sdk_rs.Prelude.{
  String, ◌≡◌, refl, ap, ◌∙◌, inl, inr, Option, arith, Option-cases, for_each, List, [], ◌∷◌,
}
use mathlib.Core.Option
use resonate_sdk_rs.Prelude.Map.{HashMap, get, modify, modify_all, get-modify, get-modify_all}
use resonate_sdk_rs.Prelude.Set
use resonate_sdk_rs.Prelude.I64.{ℤ}
use resonate_sdk_rs.Server.{DurablePromise, PromiseRecord, ServerState, promise_record}
use resonate_sdk_rs.Server.Timers.{set_t_timeout, del_t_timeout, send_execute_message}
use resonate_sdk_rs.Server.Settle.{
  send_to_target, fulfill_own_task, enqueue_settle, wake, note_resume, resume_awaiter,
  resume_awaiters, notify_subscribers, settle_effects, clear_awaiters, clear_subscribers,
  awaiters_of,
}

module _ {V : Type 0} where
  -- The record at a key.
  abbrev pub record_at : String → ServerState V → Option (PromiseRecord V)
  record_at k s = Option.map promise_record (get k s.promises)

  pub modify-record :
      (id k : String) (f : DurablePromise V → DurablePromise V) (m : HashMap (DurablePromise V))
      → ((p : DurablePromise V) → promise_record (f p) ≡ promise_record p)
      → Option.map promise_record (get k (modify id f m)) ≡ Option.map promise_record (get k m)
  modify-record id k f m h = elim (Option-cases (get k m)) [
    | inl e ↦ ground (arith, get-modify id k f m)
    | inr (p, e) ↦ ground (arith, get-modify id k f m, h p)
  ]

  modify_all-record :
      (k : String) (f : DurablePromise V → DurablePromise V) (m : HashMap (DurablePromise V))
      → ((p : DurablePromise V) → promise_record (f p) ≡ promise_record p)
      → Option.map promise_record (get k (modify_all f m)) ≡ Option.map promise_record (get k m)
  modify_all-record k f m h = elim (Option-cases (get k m)) [
    | inl e ↦ ground (arith, get-modify_all k f m)
    | inr (p, e) ↦ ground (arith, get-modify_all k f m, h p)
  ]

  pub send_to_target-promises :
      (id : String) (version : ℤ) (s : ServerState V)
      → (send_to_target id version s).promises ≡ s.promises
  unfolding send_to_target send_execute_message
  send_to_target-promises id version s = ground arith

  pub enqueue_settle-record :
      (k id : String) (s : ServerState V) → record_at k (enqueue_settle id s) ≡ record_at k s
  unfolding enqueue_settle fulfill_own_task del_t_timeout
  enqueue_settle-record k id s = ground (
    arith,
    modify_all-record k (λ p. record p { awaiters = Set.remove id p.awaiters }) s.promises
        (λ p. refl),
  )

  pub resume_awaiter-promises :
      (id : String) (now : ℤ) (awaiter : String) (s : ServerState V)
      → (resume_awaiter id now awaiter s).promises ≡ s.promises
  unfolding resume_awaiter wake note_resume set_t_timeout send_to_target send_execute_message
  resume_awaiter-promises id now awaiter s = ground arith

  pub resume_all-promises :
      (id : String) (now : ℤ) (ids : List String) (s : ServerState V)
      → (for_each (resume_awaiter id now) ids s).promises ≡ s.promises
  resume_all-promises id now [] s = refl
  resume_all-promises id now (a ∷ ids) s =
      resume_all-promises id now ids (resume_awaiter id now a s)
      ∙ resume_awaiter-promises id now a s

  pub resume_awaiters-record :
      (k id : String) (now : ℤ) (s : ServerState V)
      → record_at k (resume_awaiters id now s) ≡ record_at k s
  unfolding resume_awaiters
  resume_awaiters-record k id now s =
      modify-record id k clear_awaiters _ (λ p. refl)
      ∙ ap (λ m. Option.map promise_record (get k m))
          (resume_all-promises id now (awaiters_of (get id s.promises)) s)

  pub notify_subscribers-record :
      (k id : String) (s : ServerState V) → record_at k (notify_subscribers id s) ≡ record_at k s
  unfolding notify_subscribers
  notify_subscribers-record k id s =
      ground (arith, modify-record id k clear_subscribers s.promises (λ p. refl))

  -- The effects of a settlement leave every record.
  pub settle_effects-record :
      (k : String) (now : ℤ) (id : String) (s : ServerState V)
      → record_at k (settle_effects now id s) ≡ record_at k s
  unfolding settle_effects
  settle_effects-record k now id s =
      notify_subscribers-record k id _
      ∙ resume_awaiters-record k id now _
      ∙ enqueue_settle-record k id s
