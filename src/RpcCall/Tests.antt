-- ===== src/RpcCall/Tests.antt =====
-- The theorems on calls at a concrete call.
use boson_native.Prelude.{◌+◌, ◌≤◌, ◌<◌, true, none, some, [], ◌⊎◌, ◌≡◌, refl, arith}
use boson_native.Samples.{sample_id, sample_addr}
use boson_native.RpcCall.{
  RpcCall, sent, responded, Message, response, timer_cancelled, emit, update_state, check_timeout,
  on_response, is_waiting,
}
use boson_native.RpcCall.Life.{Stalls, TimesOut, check_timeout_lem}

-- Sent at the time 1000.
abbrev sent_call : RpcCall
sent_call = record {
  target_id = sample_id 1;
  remote_address = sample_addr 1;
  answer = none;
  sent_time = 1000;
  response_time = 0;
  state = sent;
  timer = true;
  events = [];
}

abbrev pong : Message
pong = record { type = response; id = sample_id 1; origin = sample_addr 1 }

waits : is_waiting sent_call.state ≡ true
unfolding is_waiting
waits = refl

check_timeout_lem_example :
    ((3000 < 1000 + 10000) × Stalls 3000 sent_call (check_timeout 3000 sent_call))
    ⊎ ((1000 + 10000 ≤ 3000) × TimesOut sent_call (check_timeout 3000 sent_call))
check_timeout_lem_example =
    check_timeout_lem 3000 sent_call waits refl (omega arith) (omega arith) (omega arith)

abbrev answered_call : RpcCall
answered_call =
    update_state responded
      (record (emit timer_cancelled sent_call) { answer = some pong; response_time = 1500 })

on_response-pong : on_response 1500 pong sent_call ≡ some answered_call
unfolding on_response
on_response-pong = refl
