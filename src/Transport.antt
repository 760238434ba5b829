-- ===== src/Transport.antt =====
-- resonate/src/transport.rs: requests over a network, with a check that the answer belongs to the
-- request, and incoming messages. The network is behind the world `W`.
use resonate_sdk_rs.Prelude.{String, ◌==◌, not, concat, unwrap_or, and_then, if◌then◌else◌}
use resonate_sdk_rs.Prelude.I64.{ℤ}
use resonate_sdk_rs.Error.{
  Error, Result, ok, err, Serde, converted, fails, server_error, decoding_error, from_serde,
}
use resonate_sdk_rs.Json.{Json, get_str}

-- `Message`, with `ExecuteMsg` and `UnblockMsg`.
pub data Message (V : Type 0) : Type 0 where
  execute : String → ℤ → Message V
  unblock : V → Message V

-- `Network::send`, and what serde_json parses and prints here.
pub record Network (J : Json) (W : Type 0) : Type 0 where
  pub send_text : String → W → Result String × W
  pub from_str : String → Serde J.Value
  pub print : J.Value → Serde String
  pub message : String → Serde (Message J.Value)

abbrev pub mismatch : String → String → String → Error
mismatch what expected got = server_error 500 (
    concat "response " (
      concat what
        (concat " mismatch: expected '" (concat expected (concat "', got '" (concat got "'"))))))

module _ (J : Json) where
  abbrev pub kind_of : J.Value → String
  kind_of v = unwrap_or (get_str J v "kind") ""

  abbrev pub corr_id_of : J.Value → String
  corr_id_of v = unwrap_or (and_then (J.get v "head") (λ h. get_str J h "corrId")) ""

  -- The two validations of `Transport::send`.
  unfoldable pub validate : String → String → J.Value → Result J.Value
  validate kind corr_id response =
      if not (kind_of response == kind)
      then err (mismatch "kind" kind (kind_of response))
      else if not (corr_id_of response == corr_id)
      then err (mismatch "corrId" corr_id (corr_id_of response))
      else ok response

module _ {J : Json} {W : Type 0} (N : Network J W) where
  -- The answer's text, parsed and validated.
  unfoldable pub read_response : String → String → Result String → Result J.Value
  read_response kind corr_id (err e) = err e
  read_response kind corr_id (ok text) = elim (N.from_str text) [
    | fails e ↦
        err (decoding_error (concat "invalid response JSON: " (concat e (concat ", resp: " text))))
    | converted response ↦ validate J kind corr_id response
  ]

  unfoldable pub send : String → String → String → W → Result J.Value × W
  send kind corr_id body w = let r = N.send_text body w in (read_response kind corr_id r.0, r.1)

  unfoldable pub send_json : J.Value → W → Result J.Value × W
  send_json request w = elim (from_serde (N.print request)) [
    | err e ↦ (err e, w)
    | ok body ↦ send (kind_of J request) (corr_id_of J request) body w
  ]

  -- An incoming text reaches the callback if it is a message.
  unfoldable pub recv : {S : Type 0} → (Message J.Value → S → S) → String → S → S
  recv callback raw s = elim (N.message raw) [ converted msg ↦ callback msg s | fails e ↦ s ]
