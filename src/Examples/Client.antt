-- ===== src/Examples/Client.antt =====
-- What the theorems of the client side say of a cache, a codec, a heartbeat, a registry and a chain of
-- creations.
use resonate_sdk_rs.Prelude.{
  ℕ, suc, String, ◌≡◌, refl, subst, false, not, ◌&&◌, ◌==◌, eq_iff, List, [], ◌∷◌, none, some,
  arith, if◌then◌else◌,
}
use resonate_sdk_rs.Prelude.Map
use resonate_sdk_rs.Prelude.I64.{pos}
use resonate_sdk_rs.Error.{converted, Error, Result, ok, err, ok_inj, timeout, serialization_error}
use resonate_sdk_rs.Types.{resolved}
use resonate_sdk_rs.Server.{PromiseRecord}
use resonate_sdk_rs.Effects.{Value, Codec, Sender, Effects, Call, settle, call, run}
use resonate_sdk_rs.Effects.Monotonic.{run-settled}
use resonate_sdk_rs.Codec.{
  Shape, text, null, other, Formats, noop_encryptor, encode, encode_text, decode, decode_promise,
  wire,
}
use resonate_sdk_rs.Codec.RoundTrip.{Laws, decode-encode, decode_promise-encode}
use resonate_sdk_rs.Sequencing.{start}
use resonate_sdk_rs.Heartbeat.{
  AsyncHeartbeat, new as new_heartbeat, start as beats, track, ensure_loop_running, untrack, abort,
  starts, stops, run as run_calls, IsLive, run-IsLive,
}
use resonate_sdk_rs.Ids.{
  contains_char, join_id, origin_of, validate_root_id, lineage, origin_of-lineage,
}
use resonate_sdk_rs.Registry.{Registry, function, workflow, add, get, contains, get-add}

-- JSON documents that are null, true or a text that does not serialize; bytes are texts.
data Doc : Type 0 where
  nil yes : Doc
  string : String → Doc

abbrev print : Doc → Result String
print nil = ok "null"
print yes = ok "true"
print (string s) = err (serialization_error s)

abbrev parse : String → Result Doc
parse s =
    if s == "null" then ok nil else if s == "true" then ok yes else err (serialization_error s)

abbrev shape : Doc → Shape
shape nil = null
shape yes = other
shape (string s) = text s

abbrev formats : Formats Doc String
formats = record {
  nil = nil;
  string = string;
  shape = shape;
  to_string = print;
  from_str = parse;
  as_bytes = λ s. s;
  from_utf8 = λ b. ok b;
  encode64 = λ b. b;
  decode64 = λ s. ok s;
}

parse-print : (v : Doc) (s : String) → print v ≡ ok s → parse s ≡ ok v
parse-print nil s e = subst (λ x. parse x ≡ ok nil) (ok_inj e) refl
parse-print yes s e = subst (λ x. parse x ≡ ok yes) (ok_inj e) refl
parse-print (string t) s e = absurd (ground arith)

print_filled : (v : Doc) (s : String) → print v ≡ ok s → (s == "") ≡ false
print_filled nil s e = subst (λ x. (x == "") ≡ false) (ok_inj e) refl
print_filled yes s e = subst (λ x. (x == "") ≡ false) (ok_inj e) refl
print_filled (string t) s e = absurd (ground arith)

formats-Laws : Laws formats noop_encryptor
formats-Laws = record {
  shape_string = λ s. refl;
  utf8 = λ s. refl;
  decrypts = λ b c e. ground arith;
  base64 = λ b. refl;
  not_empty = λ v s c e o i. absurd (ground (arith, print_filled v s e, eq_iff c "", ok_inj o));
}

decode-encode_example :
    decode formats noop_encryptor (wire formats noop_encryptor "true") ≡ ok (some yes)
unfolding encode encode_text
decode-encode_example =
    decode-encode formats noop_encryptor formats-Laws yes (wire formats noop_encryptor "true")
      (parse-print yes) refl

abbrev stored : PromiseRecord (Value Doc)
stored = record {
  id = "wf:1";
  state = resolved;
  param = wire formats noop_encryptor "";
  value = wire formats noop_encryptor "true";
  tags = [];
  timeout_at = pos 10;
  created_at = pos 1;
  settled_at = some (pos 5);
}

decode_promise-encode_example :
    decode_promise formats noop_encryptor stored
    ≡ ok (record stored {
      param = record { headers = none; «data» = some nil };
      value = record { headers = none; «data» = some yes };
    })
unfolding encode encode_text
decode_promise-encode_example =
    decode_promise-encode formats noop_encryptor formats-Laws stored nil yes (parse-print nil)
      (parse-print yes) refl refl

-- A sender that counts its requests and never reaches the server.
abbrev codec : Codec Doc
codec = record {
  null = nil;
  to_value = λ v. converted v;
  encode = encode formats noop_encryptor;
  decode_promise = decode_promise formats noop_encryptor;
  encode_error = λ e. yes;
}

abbrev offline : Sender ℕ Doc
offline = record {
  task_fence_create = λ id version req n. (err timeout, suc n);
  task_fence_settle = λ id version req n. (err timeout, suc n);
}

abbrev cached : Effects Doc
cached = record { task_id = "wf"; task_version = pos 0; cache = ("wf:1", stored) ∷ [] }

abbrev calls : List (Call codec offline)
calls = settle "wf:2" (ok yes) ∷ settle "wf:1" (err timeout) ∷ []

run-settled_example :
    call codec offline
      (settle "wf:1" (ok nil))
      (run codec offline calls 0 cached).0
      (run codec offline calls 0 cached).1
    ≡ (ok stored, (run codec offline calls 0 cached).0, (run codec offline calls 0 cached).1)
unfolding Map.get
run-settled_example =
    run-settled codec offline calls (settle "wf:1" (ok nil)) 0 cached stored refl refl

-- Two slots are claimed; the first one creates its promise, and the second has sent its request.
abbrev show : Error → String
show e = "error"

abbrev first : String
first = "wf.1"

abbrev registered : Registry ℕ
registered = record { by_name = ("foo", record { kind = function; func = 1 }) ∷ [] }

get-add_example : get "bar" (add "bar" workflow 2 registered).1 ≡ (
    if not ("bar" == "") && not (contains "bar" registered) && "bar" == "bar"
    then some (record { kind = workflow; func = 2 })
    else get "bar" registered)
get-add_example = get-add "bar" "bar" workflow 2 registered

run-IsLive_example :
    IsLive (run_calls (starts "wf" (pos 0) ∷ stops "wf" ∷ starts "wf" (pos 1) ∷ []) new_heartbeat)
run-IsLive_example = run-IsLive (starts "wf" (pos 0) ∷ stops "wf" ∷ starts "wf" (pos 1) ∷ [])

-- A `start` between the two critical sections of a `stop` leaves a task without the loop.
overlap :
    (left : AsyncHeartbeat) × (left
      ≡ abort (beats "b" (pos 0) (untrack "a" (beats "a" (pos 0) new_heartbeat)).1))
    × (left.active_tasks ≡ ("b", pos 0) ∷ [])
    × (left.is_running ≡ false)
unfolding abort beats untrack track ensure_loop_running Map.insert Map.remove
overlap = (_, refl, refl, refl)

origin_of-lineage_example : origin_of (lineage "my.app" ("1" ∷ "2" ∷ [])) ≡ "my.app"
unfolding validate_root_id contains_char
origin_of-lineage_example = origin_of-lineage "my.app" ("1" ∷ "2" ∷ []) refl

-- The ids that the code's documentation shows.
documented : join_id "root:1" "2" ≡ "root:1.2"
unfolding join_id contains_char
documented = refl
