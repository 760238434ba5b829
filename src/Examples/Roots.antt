-- ===== src/Examples/Roots.antt =====
-- What the theorems of the client say of a server that resolves every promise at once.
use resonate_sdk_rs.Prelude.{
  ℕ, suc, String, ◌≡◌, refl, sym, ap, true, false, List, [], ◌∷◌, none, some, unwrap_or, arith,
  ◌==◌, eq_iff, if◌then◌else◌,
}
use resonate_sdk_rs.Prelude.Map.{get}
use resonate_sdk_rs.Prelude.I64.{pos, saturating_add}
use resonate_sdk_rs.Error.{
  Result, ok, err, ok_inj, serialization_error, application, converted, from_serde,
}
use resonate_sdk_rs.Types.{resolved}
use resonate_sdk_rs.Ids.{validate_root_id, origin_of, contains_char}
use resonate_sdk_rs.Server.{PromiseRecord}
use resonate_sdk_rs.Effects.{PromiseCreateReq}
use resonate_sdk_rs.Effects
use resonate_sdk_rs.Codec.{
  Shape, other, Formats, noop_encryptor, encode, encode_text, decode_base64_str,
}
use resonate_sdk_rs.Codec.RoundTrip.{Laws}
use resonate_sdk_rs.Context.{root, as_i64}
use resonate_sdk_rs.Workflow.{sleep_task}
use resonate_sdk_rs.Workflow.Program.{Program, ret, remote, awaits, exec}
use resonate_sdk_rs.Workflow.Lineage.{recorded, AllIn}
use resonate_sdk_rs.Sender.{conflict}
use resonate_sdk_rs.Client.{
  refresh, Options, Watch, Parts, Client, build_promise_create_req, build_root_tags, decode_result,
  result_of,
}
use resonate_sdk_rs.Client.Roots.{build_promise_create_req-AllIn}
use resonate_sdk_rs.Client.Results.{Fits, decode_result-encode}
use resonate_sdk_rs.Client.Refresh.{refresh-done}
use resonate_sdk_rs.Client.Subscriptions.{
  done, Move, gets, drops, unblocks, refreshes, moves, moves-done,
}
use resonate_sdk_rs.Examples.Values.{
  Value, null, text, num, arr, obj, nil, item, Fields, end, field, find, put, values,
}
use resonate_sdk_rs.Examples.Worker.{tools, counting}

-- Null and the empty array print.
abbrev shape : Value → Shape
shape null = Shape.null
shape (text s) = Shape.text s
shape _ = other

abbrev print : Value → Result String
print null = ok "null"
print (arr nil) = ok "[]"
print (arr (item v vs)) = err (serialization_error "array")
print (text s) = err (serialization_error s)
print (num z) = err (serialization_error "number")
print (obj fs) = err (serialization_error "object")

abbrev parse : String → Result Value
parse s =
    if s == "null" then ok null else if s == "[]" then ok (arr nil) else err (serialization_error s)

abbrev formats : Formats Value String
formats = record {
  nil = null;
  string = text;
  shape = shape;
  to_string = print;
  from_str = parse;
  as_bytes = λ s. s;
  from_utf8 = λ b. ok b;
  encode64 = λ b. b;
  decode64 = λ s. ok s;
}

parse-print : (v : Value) (s : String) → print v ≡ ok s → parse s ≡ ok v
parse-print null s e = sym (ap parse (ok_inj e))
parse-print (arr nil) s e = sym (ap parse (ok_inj e))
parse-print (arr (item v vs)) s e = absurd (ground arith)
parse-print (text t) s e = absurd (ground arith)
parse-print (num z) s e = absurd (ground arith)
parse-print (obj fs) s e = absurd (ground arith)

print_filled : (v : Value) (s : String) → print v ≡ ok s → (s == "") ≡ false
print_filled null s e = sym (ap (λ t. t == "") (ok_inj e))
print_filled (arr nil) s e = sym (ap (λ t. t == "") (ok_inj e))
print_filled (arr (item v vs)) s e = absurd (ground arith)
print_filled (text t) s e = absurd (ground arith)
print_filled (num z) s e = absurd (ground arith)
print_filled (obj fs) s e = absurd (ground arith)

formats-Laws : Laws formats noop_encryptor
formats-Laws = record {
  shape_string = λ s. refl;
  utf8 = λ s. refl;
  decrypts = λ b c e. ground arith;
  base64 = λ b. refl;
  not_empty = λ v s c e o i. absurd (ground (arith, print_filled v s e, eq_iff c "", ok_inj o));
}

find-put : (k : String) (v : Value) (fs : Fields) → find (put k v fs) k ≡ some v
find-put k v end = ground (arith, eq_iff k k)
find-put k v (field j w fs) = ground (arith, eq_iff k k, eq_iff j k, find-put k v fs)

-- The record of a promise that is resolved with the empty array.
abbrev settled : PromiseRecord (Effects.Value Value)
settled = record {
  id = "wf";
  state = resolved;
  param = record { headers = none; «data» = none };
  value = record { headers = none; «data» = some (text "[]") };
  tags = [];
  timeout_at = pos 100;
  created_at = pos 1;
  settled_at = some (pos 5);
}

abbrev parts : Parts values ℕ
parts = record {
  encode = encode formats noop_encryptor;
  decode_base64_str = decode_base64_str formats noop_encryptor;
  decode_promise = λ p. ok p;
  deserialize_error = λ v. application "error";
  deserialize = λ v. converted v;
  value_of = λ v. converted (record { headers = none; «data» = some v });
  headers_json = λ h. null;
  task_json = λ func args. args;
  contains = λ name. true;
  task_create_or_conflict = λ pid ttl req n. (ok conflict, suc n);
  promise_create = λ req n. (ok settled, suc n);
  promise_register_listener = λ id address n. (ok settled, suc n);
  execute = λ id version p preload n. n;
  now_ms = λ n. pos 5;
  pid = "p";
  unicast = "poll://p";
  ttl = 60;
}

parts-Fits : Fits parts formats noop_encryptor
parts-Fits = record {
  decode_law = λ s. refl;
  as_str_law = λ s. refl;
  insert_law = λ v o. find-put "data" v o;
}

decode_result-encode_example : decode_result parts (result_of parts settled) ≡ ok (arr nil)
unfolding encode encode_text from_serde
decode_result-encode_example =
    decode_result-encode parts formats noop_encryptor formats-Laws parts-Fits (arr nil) settled
      (parse-print (arr nil)) refl refl

abbrev options : Options
options = record { tags = []; target = "poll://any@default"; timeout = 100 }

abbrev request : PromiseCreateReq Value
request = record {
  id = "wf";
  timeout_at = pos 105;
  param = record { headers = none; «data» = some (text "[]") };
  tags = build_root_tags "wf" "poll://any@default" [];
}

abbrev sleeper : Program String
sleeper = remote awaits (sleep_task 3) (λ r. ret r)

build_promise_create_req-AllIn_example :
    AllIn "wf"
      (exec tools
        (recorded counting)
        sleeper
        (root "wf"
          (unwrap_or (get "resonate:origin" request.tags) (origin_of "wf"))
          (pos 105)
          "main")
        (record { state = 0; log = [] })).2.log
unfolding build_promise_create_req validate_root_id contains_char encode encode_text as_i64
    saturating_add
build_promise_create_req-AllIn_example =
    build_promise_create_req-AllIn parts tools counting "wf" "main" (arr nil) options (pos 5)
      request sleeper (pos 105) 0 refl

abbrev other_watch : Watch Value
other_watch = record { held = none; receivers = 2 }

abbrev asked : Client Value ℕ
asked = record {
  subscriptions =
      ("wf", record { held = some (record { state = resolved; value = null }); receivers = 1 })
      ∷ (("other", other_watch) ∷ []);
  world = 0;
}

abbrev later : List (Move parts)
later = gets "new" ∷ drops "other" ∷ refreshes ∷ unblocks (obj (field "id" (text "wf") end)) ∷ []

moves-done_example : done "wf" (moves parts later asked).subscriptions ≡ true
unfolding get
moves-done_example = moves-done parts "wf" later asked refl

refresh-done_example : done "other" (refresh parts asked).subscriptions ≡ true
unfolding get
refresh-done_example =
    refresh-done parts "other" asked other_watch refl refl (omega arith)
      (λ w. (settled, refl, refl))
