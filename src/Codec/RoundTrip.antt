-- ===== src/Codec/RoundTrip.antt =====
-- resonate/src/codec.rs: `encode` and `decode` together, and what they rely on.
use resonate_sdk_rs.Prelude.{
  String, ◌≡◌, ◌≢◌, refl, subst, ◌⊎◌, inl, inr, ◌==◌, eq_iff, false, Option, none, some, arith,
  unwrap_or,
}
use resonate_sdk_rs.Error.{Result, ok, ok_inj, Result-cases}
use resonate_sdk_rs.Server.{PromiseRecord}
use resonate_sdk_rs.Effects.{Value}
use resonate_sdk_rs.Codec.{
  wire, Shape, text, null, other, Formats, Encryptor, encode_text, encode, decode_base64_str,
  decode, decode_promise,
}

-- What the code relies on: base64, UTF-8 and the encryptor invert what they have written, and the
-- text of a value is not empty.
pub record Laws {V B : Type 0} (F : Formats V B) (E : Encryptor B) : Type 0 where
  pub shape_string : (s : String) → F.shape (F.string s) ≡ text s
  pub utf8 : (s : String) → F.from_utf8 (F.as_bytes s) ≡ ok s
  pub decrypts : (b c : B) → E.encrypt b ≡ ok c → E.decrypt c ≡ ok b
  pub base64 : (b : B) → F.decode64 (F.encode64 b) ≡ ok b
  pub not_empty :
      (v : V) (s : String) (c : B)
      → F.to_string v ≡ ok s
      → E.encrypt (F.as_bytes s) ≡ ok c
      → F.encode64 c ≢ ""

-- A value that JSON reads back: the text that `to_string` writes for it, `from_str` reads as it. Values
-- that are nested too deeply, or hold a float that is not read exactly, are none.
abbrev pub IsReadable : {V B : Type 0} → Formats V B → V → Type 0
IsReadable F v = (s : String) → F.to_string v ≡ ok s → F.from_str s ≡ ok v

module _ {V B : Type 0} (F : Formats V B) (E : Encryptor B) (L : Laws F E) where
  -- The value that a decoded one stands for.
  abbrev pub decoded : V → Option V
  decoded v = elim (F.shape v) [ null ↦ none | text s ↦ some v | other ↦ some v ]

  -- What was written decodes.
  decode-wire :
      (v : V) (s : String) (c : B)
      → IsReadable F v
      → F.to_string v ≡ ok s
      → E.encrypt (F.as_bytes s) ≡ ok c
      → decode F E (wire F E (F.encode64 c)) ≡ ok (some v)
  unfolding decode decode_base64_str
  decode-wire v s c readable written encrypted =
      rw
        (
          L.shape_string (F.encode64 c),
          filled,
          L.base64 c,
          L.decrypts (F.as_bytes s) c encrypted,
          L.utf8 s,
          readable s written,
          decode,
          decode_base64_str,
        )
        refl
    where
      filled : (F.encode64 c == "") ≡ false
      filled = ground (arith, eq_iff (F.encode64 c) "", L.not_empty v s c written encrypted)

  -- The value that an encoding decodes to.
  abbrev ReadsBack : V → Option V → Result (Value V) → Type 0
  ReadsBack v read r = (w : Value V) → r ≡ ok w → decode F E w ≡ ok read

  decode-encode_text : (v : V) → IsReadable F v → ReadsBack v (some v) (encode_text F E v)
  unfolding encode_text
  decode-encode_text v readable = elim (Result-cases (F.to_string v)) [
    | inr (x, q) ↦ rw (q, encode_text) (λ w e. absurd (ground arith))
    | inl (s, q) ↦ elim (Result-cases (E.encrypt (F.as_bytes s))) [
      | inr (x, o) ↦ rw (q, o, encode_text) (λ w e. absurd (ground arith))
      | inl (c, o) ↦
          rw (q, o, encode_text)
            (λ w e.
              subst (λ u. decode F E u ≡ ok (some v)) (ok_inj e) (decode-wire v s c readable q o))
    ]
  ]

  decode-nil : decode F E (wire F E "") ≡ ok none
  unfolding decode
  decode-nil = rw (L.shape_string "", decode) refl

  pub Shape-cases : (x : Shape) → (x ≡ null) ⊎ ((s : String) × (x ≡ text s)) ⊎ (x ≡ other)
  Shape-cases null = inl refl
  Shape-cases (text s) = inr (inl (s, refl))
  Shape-cases other = inr (inr refl)

  -- Whatever `encode` writes for a value that JSON reads back, `decode` reads as the value that was
  -- written; null as an absent one.
  pub decode-encode :
      (v : V) (w : Value V) → IsReadable F v → encode F E v ≡ ok w → decode F E w ≡ ok (decoded v)
  unfolding encode
  decode-encode v w readable = elim (Shape-cases (F.shape v)) [
    | inl q ↦
        rw (q, encode, decoded) (λ e. subst (λ u. decode F E u ≡ ok none) (ok_inj e) decode-nil)
    | inr (inl (s, q)) ↦ rw (q, encode, decoded) (decode-encode_text v readable w)
    | inr (inr q) ↦ rw (q, encode, decoded) (decode-encode_text v readable w)
  ]

  -- A record whose payloads were encoded, from two values that JSON reads back, decodes to the same
  -- record with the values that were written, and a null value in the place of an absent one.
  pub decode_promise-encode :
      (p : PromiseRecord (Value V)) (param value : V)
      → IsReadable F param
      → IsReadable F value
      → encode F E param ≡ ok p.param
      → encode F E value ≡ ok p.value
      → decode_promise F E p
        ≡ ok (record p {
          param = record {
            headers = p.param.headers;
            «data» = some (unwrap_or (decoded param) F.nil);
          };
          value = record {
            headers = p.value.headers;
            «data» = some (unwrap_or (decoded value) F.nil);
          };
        })
  unfolding decode_promise
  decode_promise-encode p param value read_param read_value e o =
      rw (decode-encode param p.param read_param e, decode-encode value p.value read_value o) refl
