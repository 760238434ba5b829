-- ===== src/Examples/Sending.antt =====
-- What the theorems of the sender say of a network that answers every request alike.
use resonate_sdk_rs.Prelude.{ℕ, String, ◌≡◌, refl, true, [], none}
use resonate_sdk_rs.Prelude.Decimal.{to_string, show_from, show_i64}
use resonate_sdk_rs.Prelude.I64.{pos}
use resonate_sdk_rs.Error.{ok, converted, fails, from_serde}
use resonate_sdk_rs.Effects.{PromiseCreateReq}
use resonate_sdk_rs.Transport.{Network, validate, read_response, send}
use resonate_sdk_rs.Sender.Envelope.{
  by_id, Sender, status_of, data_of, accept, make_head, send_envelope,
}
use resonate_sdk_rs.Sender.Requests.{task_create, task_create_or_conflict}
use resonate_sdk_rs.Sender.Answers.{IsAnswer, Agree, send_envelope-IsAnswer, task_create-Agree}
use resonate_sdk_rs.Examples.Values.{Value, text, num, obj, end, field, values}

abbrev response : Value
response = obj (
    field "kind" (text "task.create") (
      field "head" (obj (field "corrId" (text "sr-7") (field "status" (num (pos 409)) end)))
        (field "data" (text "Already exists") end)))

-- A network over a count of its requests.
abbrev network : Network values ℕ
network = record {
  send_text = λ body n. (ok "response", 1);
  from_str = λ s. converted response;
  print = λ v. converted "";
  message = λ s. fails "";
}

abbrev sender : Sender values ℕ
sender = record {
  network = network;
  print = λ e. converted e.kind;
  create_to_value = λ req. converted response;
  settle_to_value = λ req. converted response;
  promise_of = λ v. fails "";
  task_of = λ v. fails "";
  schedule_of = λ v. fails "";
  now_ms = λ n. pos 7;
  auth = none;
}

send_envelope-IsAnswer_example :
    (body : String) × (reply : String) × (r : Value) × (sender.network.send_text body 0
      ≡ (ok reply, (send_envelope sender "task.create" (by_id "wf") true 0).1))
    × (sender.network.from_str reply ≡ converted r)
    × IsAnswer values "task.create" (make_head sender 0).corr_id true 409 (text "Already exists") r
unfolding send_envelope send read_response validate make_head show_i64 to_string show_from
    from_serde accept status_of data_of
send_envelope-IsAnswer_example =
    send_envelope-IsAnswer sender "task.create" (by_id "wf") true 0 409 (text "Already exists") refl

abbrev request : PromiseCreateReq Value
request = record {
  id = "wf";
  timeout_at = pos 100;
  param = record { headers = none; «data» = none };
  tags = [];
}

task_create-Agree_example :
    Agree
      (task_create sender "p" (pos 60) request 0).0
      (task_create_or_conflict sender "p" (pos 60) request 0).0
    × ((task_create sender "p" (pos 60) request 0).1
        ≡ (task_create_or_conflict sender "p" (pos 60) request 0).1)
task_create-Agree_example = task_create-Agree sender "p" (pos 60) request 0
