-- ===== src/Examples/Values.antt =====
-- JSON values that the examples use for `serde_json::Value`.
use resonate_sdk_rs.Prelude.{ℕ, String, ◌==◌, List, [], ◌∷◌, Option, none, some, if◌then◌else◌}
use resonate_sdk_rs.Prelude.I64.{ℤ, pos}
use resonate_sdk_rs.Json.{Json}
use resonate_sdk_rs.Types.{
  PromiseState, pending, resolved, rejected, rejected_canceled, rejected_timedout,
}

mutual
  pub data Value : Type 0 where
    null : Value
    text : String → Value
    num : ℤ → Value
    arr : Items → Value
    obj : Fields → Value

  pub data Items : Type 0 where
    nil : Items
    item : Value → Items → Items

  pub data Fields : Type 0 where
    end : Fields
    field : String → Value → Fields → Fields

abbrev pub find : Fields → String → Option Value
find end k = none
find (field j v fs) k = if j == k then some v else find fs k

abbrev pub put : String → Value → Fields → Fields
put k v end = field k v end
put k v (field j w fs) = if j == k then field k v fs else field j w (put k v fs)

abbrev list : Items → List Value
list nil = []
list (item v vs) = v ∷ list vs

abbrev pairs : Fields → List (String × Value)
pairs end = []
pairs (field k v fs) = (k, v) ∷ pairs fs

abbrev get : Value → String → Option Value
get (obj fs) k = find fs k
get _ k = none

abbrev as_str : Value → Option String
as_str (text s) = some s
as_str _ = none

abbrev as_i64 : Value → Option ℤ
as_i64 (num z) = some z
as_i64 _ = none

abbrev as_u64 : Value → Option ℕ
as_u64 (num (pos n)) = some n
as_u64 _ = none

abbrev as_array : Value → Option (List Value)
as_array (arr vs) = some (list vs)
as_array _ = none

abbrev as_object : Value → Option Fields
as_object (obj fs) = some fs
as_object _ = none

abbrev state_named : String → Option PromiseState
state_named s =
    if s == "pending"
    then some pending
    else if s == "resolved"
    then some resolved
    else if s == "rejected"
    then some rejected
    else if s == "rejected_canceled"
    then some rejected_canceled
    else if s == "rejected_timedout"
    then some rejected_timedout
    else none

abbrev promise_state : Value → Option PromiseState
promise_state (text s) = state_named s
promise_state _ = none

abbrev pub values : Json
values = record {
  Value = Value;
  Object = Fields;
  null = null;
  string = text;
  object = obj;
  get = get;
  as_str = as_str;
  as_i64 = as_i64;
  as_u64 = as_u64;
  as_array = as_array;
  as_object = as_object;
  empty = end;
  insert = put;
  lookup = find;
  entries = pairs;
  promise_state = promise_state;
}
