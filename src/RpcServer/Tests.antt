-- ===== src/RpcServer/Tests.antt =====
-- The theorems on the server at a concrete server.
use boson_native.Prelude.{ℕ, ◌+◌, true, false, none, some, List, [], ◌∷◌, ◌≡◌, refl}
use boson_native.Samples.{sample_id, sample_addr}
use boson_native.SocketAddress.{addr_eq, bytes_eq}
use boson_native.RpcCall.{RpcCall, State, sent, unsent, request, response}
use boson_native.RpcCall.Life.{sent-waits}
use boson_native.RpcServer.{RpcServer, Packet, find_call, handle_packet, is_type}
use boson_native.RpcServer.Calls.{
  IsServer, Operation, calling, receiving, timing, run, run-IsServer,
}
use boson_native.RpcServer.Answers.{
  IsAnswered, handle_packet-IsAnswered, answers, handle_packet-replay,
}

-- A call to the node number `b`.
abbrev call : ℕ → State → RpcCall
call b s = record {
  target_id = sample_id b;
  remote_address = sample_addr b;
  answer = none;
  sent_time = 1000;
  response_time = 0;
  state = s;
  timer = true;
  events = [];
}

-- A server that waits for the node number 1.
abbrev server : RpcServer
server = record {
  calls = (7, call 1 sent) ∷ [];
  next_txid = 8;
  is_reachable = true;
  messages_at_last_check = 0;
  last_reachable_check = 0;
  received_messages = 0;
  start_time = 0;
  has_dht6 = true;
  has_sock4 = true;
  has_sock6 = false;
  outputs = [];
}

waiting : IsServer ((7, call 1 sent) ∷ [])
unfolding find_call
waiting = record { distinct = (refl, tt); waits = ((refl, sent-waits), tt) }

-- The response to the call, from the address of the node number `b`.
abbrev reply : ℕ → Packet
reply b = record {
  txid = 7;
  message = record { type = response; id = sample_id 1; origin = sample_addr b };
}

abbrev history : List (ℕ × Operation)
history =
    (2000, calling (call 2 unsent))
    ∷ (2100, receiving (some (reply 1)))
    ∷ (2200, receiving none)
    ∷ (13000, timing 8)
    ∷ []

run-IsServer_example : IsServer (run history server).calls
run-IsServer_example = run-IsServer history server waiting

no_request : (b : ℕ) → is_type (reply b).message.type request ≡ false
unfolding is_type
no_request b = refl

there : find_call 7 server.calls ≡ some (call 1 sent)
unfolding find_call
there = refl

from_node : addr_eq (sample_addr 1) (sample_addr 1) ≡ true
unfolding addr_eq bytes_eq
from_node = refl

handle_packet-IsAnswered_example :
    IsAnswered 1100 (reply 1) (call 1 sent) server (handle_packet 1100 (some (reply 1)) server)
handle_packet-IsAnswered_example =
    handle_packet-IsAnswered 1100 (reply 1) (call 1 sent) server waiting (no_request 1) there
      from_node

handle_packet-replay_example :
    (answers
        (handle_packet 1200 (some (reply 1)) (handle_packet 1100 (some (reply 1)) server)).outputs
      ≡ answers server.outputs + 1)
    × ((handle_packet 1200 (some (reply 1)) (handle_packet 1100 (some (reply 1)) server)).calls
        ≡ (handle_packet 1100 (some (reply 1)) server).calls)
handle_packet-replay_example =
    handle_packet-replay 1100 1200 (reply 1) (call 1 sent) server waiting (no_request 1) there
      from_node
