-- ===== src/Core/Messages.antt =====
-- resonate/src/core.rs: what a worker does on an `execute` message.
use resonate_sdk_rs.Prelude.{ℕ, String, ◌≡◌, sym, ap, ◌∙◌, subst, inl, inr, List, ◌∷◌, some}
use resonate_sdk_rs.Prelude.I64.{ℤ}
use resonate_sdk_rs.Error.{Error, Result, ok, err, Result-cases}
use resonate_sdk_rs.Server.{PromiseRecord}
use resonate_sdk_rs.Effects.{Value}
use resonate_sdk_rs.Sender.{TaskAcquireResult}
use resonate_sdk_rs.Core.{Status, Core, on_message, execute_until_blocked}
use resonate_sdk_rs.Core.Protocol.{
  Event, acquires, Journal, Lives, some_inj, execute_until_blocked-Lives,
}

-- The acquire alone where it fails, or where the promise does not decode; else the life of the task under
-- the version that the server gave it.
pub data Receives {W V : Type 0} (K : Core W V) (id : String) (version : ℤ)
    : List (Event V) → Result Status → List (Event V) → Type 0 where
  refused :
      (h : List (Event V)) (e : Error)
      → Receives K id version h (err e) (acquires id version (err e) ∷ h)
  undecodable :
      (h : List (Event V)) (a : TaskAcquireResult V) (e : Error)
      → K.codec.decode_promise a.promise ≡ err e
      → Receives K id version h (err e) (acquires id version (ok a) ∷ h)
  lives :
      (h later : List (Event V)) (a : TaskAcquireResult V) (p : PromiseRecord (Value V))
      (r : Result Status)
      → K.codec.decode_promise a.promise ≡ ok p
      → Lives id a.task.version p (acquires id version (ok a) ∷ h) r later
      → Receives K id version h r later

module _ {W V : Type 0} (K : Core W V) (J : Journal K) (id : String) (version : ℤ) where
  acquired_history :
      (w : W) (x : Result (TaskAcquireResult V))
      → (K.task_acquire id version K.pid K.ttl w).0 ≡ x
      → acquires id version x ∷ J.history w ≡ J.history (K.task_acquire id version K.pid K.ttl w).1
  acquired_history w x e =
      sym (J.acquire_law id version K.pid K.ttl w ∙ ap (λ x. acquires id version x ∷ J.history w) e)

  -- What `on_message` returns, and the requests that it makes until then, on every branch: an acquire that
  -- the server refuses is its only request; after an acquire whose promise does not decode it makes no
  -- other, not even the release; else the task lives under the acquired version.
  pub on_message-Receives :
      (fuel : ℕ) (w : W) (r : Result Status)
      → (on_message K fuel id version w).0 ≡ some r
      → Receives K id version (J.history w) r (J.history (on_message K fuel id version w).1)
  unfolding on_message
  on_message-Receives fuel w r =
      let acquired = K.task_acquire id version K.pid K.ttl w in
      let h = J.history w in
      elim (Result-cases acquired.0) [
        | inr (e, o) ↦
            rw (o, on_message)
              (λ q.
                subst (λ x. Receives K id version h x (J.history acquired.1)) (some_inj q)
                  (subst (Receives K id version h (err e)) (acquired_history w (err e) o)
                    (refused h e)))
        | inl (a, o) ↦ elim (Result-cases (K.codec.decode_promise a.promise)) [
          | inr (e, u) ↦
              rw (o, u, on_message)
                (λ q.
                  subst (λ x. Receives K id version h x (J.history acquired.1)) (some_inj q)
                    (subst (Receives K id version h (err e)) (acquired_history w (ok a) o)
                      (undecodable h a e u)))
          | inl (p, u) ↦
              rw (o, u, on_message)
                (λ q.
                  lives h
                    (J.history
                      (execute_until_blocked K fuel id a.task.version p (some a.preload)
                        acquired.1).1)
                    a p r u
                    (subst
                      (λ l. Lives id a.task.version p l r (
                        J.history
                          (execute_until_blocked K fuel id a.task.version p (some a.preload)
                            acquired.1).1))
                      (sym (acquired_history w (ok a) o))
                      (execute_until_blocked-Lives K J id a.task.version p fuel (some a.preload)
                        acquired.1 r q)))
        ]
      ]
