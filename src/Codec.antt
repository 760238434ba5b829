-- ===== src/Codec.antt =====
-- resonate/src/codec.rs: encoding and decoding at the durability boundary. JSON (serde_json), base64,
-- UTF-8 and the encryptor, which the user supplies, are interfaces.
pub mod RoundTrip
use resonate_sdk_rs.Prelude.{String, ◌≡◌, ◌==◌, Bool, Option, none, some, unwrap_or, if◌then◌else◌}
use resonate_sdk_rs.Error.{Error, Result, ok, err, decoding_error}
use resonate_sdk_rs.Server.{PromiseRecord}
use resonate_sdk_rs.Effects.{Value, data_as_ref}

-- What `match data` sees of a JSON value.
pub data Shape : Type 0 where
  text : String → Shape
  null : Shape
  other : Shape

-- serde_json, base64 and String over bytes `B`.
pub record Formats (V B : Type 0) : Type 0 where
  pub nil : V
  pub string : String → V
  pub shape : V → Shape
  pub to_string : V → Result String
  pub from_str : String → Result V
  pub as_bytes : String → B
  pub from_utf8 : B → Result String
  pub encode64 : B → String
  pub decode64 : String → Result B

pub record Encryptor (B : Type 0) : Type 0 where
  pub encrypt : B → Result B
  pub decrypt : B → Result B

abbrev pub noop_encryptor : {B : Type 0} → Encryptor B
noop_encryptor = record { encrypt = λ b. ok b; decrypt = λ b. ok b }

infixl 5 ◌then◌
abbrev pub ◌then◌ : {A B : Type 0} → Result A → (A → Result B) → Result B
ok a then f = f a
err e then f = err e

module _ {V B : Type 0} (F : Formats V B) (E : Encryptor B) where
  abbrev pub wire : String → Value V
  wire s = record { headers = none; «data» = some (F.string s) }

  unfoldable pub encode_text : V → Result (Value V)
  encode_text v = F.to_string v then λ json.
      E.encrypt (F.as_bytes json) then λ encrypted. ok (wire (F.encode64 encrypted))

  -- On a value that `serde_json::to_value` gave.
  unfoldable pub encode : V → Result (Value V)
  encode v = elim (F.shape v) [
    | null ↦ ok (wire "")
    | text s ↦ encode_text v
    | other ↦ encode_text v
  ]

  unfoldable pub decode_base64_str : String → Result (Option V)
  decode_base64_str s =
      if s == ""
      then ok none
      else F.decode64 s then λ bytes. E.decrypt bytes then λ decrypted.
          F.from_utf8 decrypted then λ json. F.from_str json then λ v. ok (some v)

  unfoldable pub decode : Value V → Result (Option V)
  decode value = elim (F.shape (data_as_ref F.nil value)) [
    | text s ↦ if s == "" then ok none else decode_base64_str s
    | null ↦ ok none
    | other ↦ err (decoding_error "expected string or null data")
  ]

  unfoldable pub decode_promise : PromiseRecord (Value V) → Result (PromiseRecord (Value V))
  decode_promise p = decode p.param then λ param. decode p.value then λ value. ok (record p {
    param = record { headers = p.param.headers; «data» = some (unwrap_or param F.nil) };
    value = record { headers = p.value.headers; «data» = some (unwrap_or value F.nil) };
  })
