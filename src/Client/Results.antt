-- ===== src/Client/Results.antt =====
-- resonate/src/handle.rs with resonate.rs and codec.rs: what a handle reads of a promise whose value the
-- codec wrote.
use resonate_sdk_rs.Prelude.{
  String, ◌≡◌, refl, sym, ap, ◌∙◌, inl, inr, Bool-cases, ◌==◌, Option, some, unwrap_or, arith,
}
use resonate_sdk_rs.Error.{Result, ok, ok_inj, Result-cases, from_serde}
use resonate_sdk_rs.Types.{resolved}
use resonate_sdk_rs.Json.{Json}
use resonate_sdk_rs.Server.{PromiseRecord}
use resonate_sdk_rs.Effects.{Value}
use resonate_sdk_rs.Codec.{Formats, Encryptor, wire, encode, encode_text, decode, decode_base64_str}
use resonate_sdk_rs.Codec.RoundTrip.{Laws, IsReadable, decoded, decode-encode, Shape-cases}
use resonate_sdk_rs.Client.{Parts, result_of, value_to_wire_json, decode_value, decode_result}

-- What the client's parts rely on: they have the codec, a text is a text for both views of JSON, and an
-- object gives back what was inserted last.
pub record Fits {J : Json} {W B : Type 0} (K : Parts J W) (F : Formats J.Value B) (E : Encryptor B)
    : Type 0 where
  pub decode_law : (s : String) → K.decode_base64_str s ≡ decode_base64_str F E s
  pub as_str_law : (s : String) → J.as_str (F.string s) ≡ some s
  pub insert_law :
      (v : J.Value) (o : J.Object) → J.get (J.object (J.insert "data" v o)) "data" ≡ some v

module _ {J : Json} {W B : Type 0} (K : Parts J W) (F : Formats J.Value B) (E : Encryptor B)
    (L : Laws F E) (M : Fits K F E) where
  -- A handle reads a text as the codec does.
  decode_value-wire :
      (s : String) (v : Option J.Value)
      → decode F E (wire F E s) ≡ ok v
      → decode_value K (value_to_wire_json K (wire F E s)) ≡ ok (unwrap_or v J.null)
  unfolding decode decode_value value_to_wire_json
  decode_value-wire s v = elim (Bool-cases (s == "")) [
    | inl e ↦
        rw (L.shape_string s, e, decode)
          (λ h.
            rw (M.insert_law (F.string s) J.empty, M.as_str_law s, e, decode_value)
              (ap (λ o. ok (unwrap_or o J.null)) (ok_inj h)))
    | inr e ↦
        rw (L.shape_string s, e, decode)
          (λ h.
            rw
              (
                M.insert_law (F.string s) J.empty,
                M.as_str_law s,
                e,
                M.decode_law s,
                h,
                decode_value,
              )
              refl)
  ]

  -- What the codec writes is a text.
  abbrev IsWire : Result (Value J.Value) → Type 0
  IsWire r = (w : Value J.Value) → r ≡ ok w → (s : String) × (w ≡ wire F E s)

  encode_text-IsWire : (v : J.Value) → IsWire (encode_text F E v)
  unfolding encode_text
  encode_text-IsWire v = elim (Result-cases (F.to_string v)) [
    | inr (x, q) ↦ rw (q, encode_text) (λ w e. absurd (ground arith))
    | inl (s, q) ↦ elim (Result-cases (E.encrypt (F.as_bytes s))) [
      | inr (x, o) ↦ rw (q, o, encode_text) (λ w e. absurd (ground arith))
      | inl (c, o) ↦ rw (q, o, encode_text) (λ w e. (F.encode64 c, sym (ok_inj e)))
    ]
  ]

  encode-IsWire : (v : J.Value) → IsWire (encode F E v)
  unfolding encode
  encode-IsWire v = elim (Shape-cases F E L (F.shape v)) [
    | inl q ↦ rw (q, encode) (λ w e. ("", sym (ok_inj e)))
    | inr (inl (s, q)) ↦ rw (q, encode) (encode_text-IsWire v)
    | inr (inr q) ↦ rw (q, encode) (encode_text-IsWire v)
  ]

  -- The way of a result from a worker to a handle: where JSON reads `v` back, and the codec wrote it as the
  -- value of a promise that is resolved, a handle that is told of the promise deserializes `v`, or null where `v` is a null.
  pub decode_result-encode :
      (v : J.Value) (p : PromiseRecord (Value J.Value))
      → IsReadable F v
      → p.state ≡ resolved
      → encode F E v ≡ ok p.value
      → decode_result K (result_of K p)
        ≡ from_serde (K.deserialize (unwrap_or (decoded F E L v) J.null))
  unfolding decode_result
  decode_result-encode v p readable settled e =
      let (s, w) = encode-IsWire v p.value e in
      let read =
        decode_value-wire s (decoded F E L v)
          (ap (decode F E) (sym w) ∙ decode-encode F E L v p.value readable e) in
      let k : decode_value K (value_to_wire_json K p.value)
          ≡ ok (unwrap_or (decoded F E L v) J.null) =
        ap (λ x. decode_value K (value_to_wire_json K x)) w ∙ read in
      rw (settled, decode_result, k) refl
