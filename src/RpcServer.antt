-- ===== src/RpcServer.antt =====
-- src/core/rpcserver.h and rpcserver.cc: the calls that wait for an answer, and what a packet does.
-- Decryption and parsing come before: a packet that fails there is `none`. The sockets, the DHT and the
-- statistics are outside; what they are given is appended to `outputs`. Transaction ids are 32-bit
-- words, which an `int` is until it overflows. An error is taken to be sent: it goes by the socket that
-- the packet came by, or that the call's request was sent by.
pub mod Map
pub mod Calls
pub mod Answers
mod Tests
use boson_native.Prelude.{
  ℕ, ◌+◌, ◌-◌, ◌*◌, ◌%◌, ◌^◌, Bool, true, false, not, ◌&&◌, Option, none, some, List, [], ◌∷◌, ◌++◌,
  ltb, ◌==◌, if◌then◌else◌,
}
use boson_native.Id.{NodeId}
use boson_native.SocketAddress.{SocketAddress, unspecified, inet, inet6, addr_eq}
use boson_native.RpcCall
use boson_native.RpcCall.{RpcCall, Message, MessageType, request, response, error}

pub record Packet : Type 0 where
  pub txid : ℕ
  pub message : Message

pub data Output : Type 0 where
  -- A request is sent with a transaction id, after the DHT is told of its target.
  dht_sending : NodeId → Output
  request_sent : ℕ → SocketAddress → Output
  -- An error message for a transaction, to a node at an address.
  error_sent : ℕ → NodeId → SocketAddress → Output
  -- A message is given to the DHT, with the call that it answers.
  delivered : Packet → Option RpcCall → Output
  dht_timeout : NodeId → Output

pub record RpcServer : Type 0 where
  pub calls : List (ℕ × RpcCall)
  pub next_txid : ℕ
  pub is_reachable : Bool
  pub messages_at_last_check : ℕ
  pub last_reachable_check : ℕ
  pub received_messages : ℕ
  pub start_time : ℕ
  pub has_dht6 : Bool
  pub has_sock4 : Bool
  pub has_sock6 : Bool
  pub outputs : List Output

abbrev pub rpc_server_reachability_timeout : ℕ
rpc_server_reachability_timeout = 60 * 1000

-- `std::map` of the calls, as a list of pairs.
pub find_call : ℕ → List (ℕ × RpcCall) → Option RpcCall
find_call x [] = none
find_call x ((k, c) ∷ rest) = let later = find_call x rest in if k == x then some c else later

pub erase_call : ℕ → List (ℕ × RpcCall) → List (ℕ × RpcCall)
erase_call x [] = []
erase_call x ((k, c) ∷ rest) =
    let later = erase_call x rest in if k == x then rest else (k, c) ∷ later

-- A call is shared, so that what is done to it is seen in the map.
pub change_call : (RpcCall → RpcCall) → ℕ → List (ℕ × RpcCall) → List (ℕ × RpcCall)
change_call f x [] = []
change_call f x ((k, c) ∷ rest) =
    let later = change_call f x rest in if k == x then (k, f c) ∷ rest else (k, c) ∷ later

abbrev pub emit : Output → RpcServer → RpcServer
emit o s = record s { outputs = s.outputs ++ o ∷ [] }

pub update_reachability : ℕ → RpcServer → RpcServer
update_reachability now s =
    let heard = record s {
      is_reachable = true;
      last_reachable_check = now;
      messages_at_last_check = s.received_messages;
    } in
    let silent = record s { is_reachable = false } in
    let late =
      ltb rpc_server_reachability_timeout ((now + 2 ^ 64 - s.last_reachable_check) % 2 ^ 64) in
    if not (s.received_messages == s.messages_at_last_check)
    then heard
    else if late
    then silent
    else s

abbrev pub next_word : ℕ → ℕ
next_word n = (n + 1) % 2 ^ 32

-- The transaction id of a new call, and the one after it.
pub new_txid : ℕ → ℕ × ℕ
new_txid n = if n == 0 then (next_word n, next_word (next_word n)) else (n, next_word n)

-- The tests of `sendData`: the address is given, and the socket of its family is open.
pub can_send : SocketAddress → RpcServer → Bool
can_send unspecified s = false
can_send (inet ip p) s = s.has_sock4
can_send (inet6 ip p) s = s.has_sock6

-- `sendCall`, with `dispatchCall`, `sendMessage` and `sendData`; the second part is an exception, for an
-- id that is in use, or when the call is in the map and sent, but its request cannot be.
pub send_call : ℕ → RpcCall → RpcServer → RpcServer × Bool
send_call now c s =
    let ids = new_txid s.next_txid in
    let s' = record s { next_txid = ids.1 } in
    let c' = RpcCall.on_sent now c in
    let waiting = emit (dht_sending c.target_id) (record s' { calls = (ids.0, c') ∷ s.calls }) in
    let sent : RpcServer × Bool =
      if can_send c.remote_address s
      then (emit (request_sent ids.0 c.remote_address) waiting, false)
      else (waiting, true) in
    elim (find_call ids.0 s.calls) [ none ↦ sent | some other ↦ (s', true) ]

-- The handler that `dispatchCall` adds for the time out of a call.
pub handle_timeout : ℕ → RpcServer → RpcServer
handle_timeout txid s = elim (find_call txid s.calls) [
  | none ↦ s
  | some c ↦ record (emit (dht_timeout c.target_id) s) { calls = erase_call txid s.calls }
]

abbrev pub send_error : Packet → RpcServer → RpcServer
send_error p s = emit (error_sent p.txid p.message.id p.message.origin) s

pub is_type : MessageType → MessageType → Bool
is_type request request = true
is_type response response = true
is_type error error = true
is_type a b = false

-- The part of `handlePacket` for a packet whose transaction id has a call.
pub handle_answer : ℕ → Packet → RpcCall → RpcServer → RpcServer
handle_answer now p c s =
    let erased = record s { calls = erase_call p.txid s.calls } in
    let matched : RpcServer = elim (RpcCall.on_response now p.message c) [
      | none ↦ erased
      | some c' ↦ emit (delivered p (some c')) erased
    ] in
    let noticed =
      if is_type p.message.type response && s.has_dht6
      then emit (error_sent p.txid p.message.id c.remote_address) s
      else s in
    let mismatched = record noticed { calls = change_call RpcCall.on_stall p.txid s.calls } in
    if addr_eq c.remote_address p.message.origin then matched else mismatched

-- What it begins with: the count of messages, and the check of the transaction id.
pub check_txid : Packet → RpcServer → RpcServer
check_txid p s =
    let counted = record s { received_messages = s.received_messages + 1 } in
    if not (is_type p.message.type error) && (p.txid == 0) then send_error p counted else counted

-- `handlePacket` behind the parser.
pub handle_packet : ℕ → Option Packet → RpcServer → RpcServer
handle_packet now none s = s
handle_packet now (some p) s =
    let checked = check_txid p s in
    let uptime = (now + 2 ^ 64 - s.start_time) % 2 ^ 64 in
    let unexpected = is_type p.message.type response && ltb (2 * 60 * 1000) uptime in
    let stray =
      if unexpected
      then send_error p checked
      else if is_type p.message.type error
      then emit (delivered p none) checked
      else checked in
    let answer : RpcServer = elim (find_call p.txid s.calls) [
      | none ↦ stray
      | some c ↦ handle_answer now p c checked
    ] in
    if is_type p.message.type request then emit (delivered p none) checked else answer

-- The job of a call's timer: a call that times out leaves the map by the handler.
pub check_call : ℕ → ℕ → RpcServer → RpcServer
check_call now txid s =
    let checked = record s { calls = change_call (RpcCall.check_timeout now) txid s.calls } in
    elim (find_call txid s.calls) [
      | none ↦ s
      | some c ↦
          if RpcCall.is_waiting (RpcCall.check_timeout now c).state
          then checked
          else handle_timeout txid checked
    ]
