-- ===== src/RpcCall.antt =====
-- src/core/rpccall.h and rpccall.cc: one request and its life. The four handlers and the scheduler
-- are outside: their calls are appended to `events`, and they do not call back. The clock is an
-- argument.
pub mod Life
mod Tests
use boson_native.Prelude.{
  ℕ, ◌+◌, ◌-◌, ◌*◌, ◌%◌, ◌^◌, Bool, true, false, ◌||◌, Option, none, some, List, [], ◌∷◌, ◌++◌, ltb,
  leb, ◌==◌, if◌then◌else◌,
}
use boson_native.Id.{NodeId, id_eq}
use boson_native.SocketAddress.{SocketAddress, addr_eq}

pub data State : Type 0 where
  unsent sent stalled timeout canceled err responded : State

pub data MessageType : Type 0 where
  request response error : MessageType

pub record Message : Type 0 where
  pub type : MessageType
  pub id : NodeId
  pub origin : SocketAddress

-- What the call does to the outside: handlers called, and the timer set and cancelled.
pub data Event : Type 0 where
  state_changed : State → State → Event
  timed_out stalled_out : Event
  answered : Option Message → Event
  timer_set : ℕ → Event
  timer_cancelled : Event

pub record RpcCall : Type 0 where
  pub target_id : NodeId
  pub remote_address : SocketAddress
  pub answer : Option Message
  pub sent_time : ℕ
  pub response_time : ℕ
  pub state : State
  pub timer : Bool
  pub events : List Event

abbrev pub rpc_call_timeout_max : ℕ
rpc_call_timeout_max = 10 * 1000

abbrev pub emit : Event → RpcCall → RpcCall
emit e c = record c { events = c.events ++ e ∷ [] }

pub new_call : NodeId → SocketAddress → RpcCall
new_call id addr = record {
  target_id = id;
  remote_address = addr;
  answer = none;
  sent_time = 2 ^ 64 - 1;
  response_time = 2 ^ 64 - 1;
  state = unsent;
  timer = false;
  events = [];
}

-- The handler that a state has besides the one for every change.
pub handle_state : State → RpcCall → RpcCall
handle_state timeout c = emit timed_out c
handle_state stalled c = emit stalled_out c
handle_state responded c = emit (answered c.answer) c
handle_state s c = c

pub update_state : State → RpcCall → RpcCall
update_state s c = handle_state s (emit (state_changed c.state s) (record c { state = s }))

pub on_sent : ℕ → RpcCall → RpcCall
on_sent now c =
    let c' = update_state sent (record c { sent_time = now }) in
    emit (timer_set 2000) (record c' { timer = true })

abbrev pub cancel_timer : RpcCall → RpcCall
cancel_timer c = if c.timer then emit timer_cancelled c else c

-- `responsed`; a message that is no response leads to an exception, after the fields are set.
pub on_response : ℕ → Message → RpcCall → Option RpcCall
on_response now m c =
    let c' = record (cancel_timer c) { answer = some m; response_time = now } in
    elim m.type [
      | response ↦ some (update_state responded c')
      | error ↦ some (update_state err c')
      | request ↦ none
    ]

pub is_waiting : State → Bool
is_waiting sent = true
is_waiting stalled = true
is_waiting s = false

-- `now - sentTime` as a 32-bit word; from 2^31 on it is a negative `int`.
abbrev pub elapsed_word : ℕ → RpcCall → ℕ
elapsed_word now c = (now + 2 ^ 64 - c.sent_time) % 2 ^ 64 % 2 ^ 32

pub time_remains : ℕ → Bool
time_remains word = ltb word rpc_call_timeout_max || leb (2 ^ 31) word

abbrev pub remaining : ℕ → ℕ
remaining word =
    if ltb word (2 ^ 31) then rpc_call_timeout_max - word else rpc_call_timeout_max + 2 ^ 32 - word

pub check_timeout : ℕ → RpcCall → RpcCall
check_timeout now c =
    let word = elapsed_word now c in
    let waits_on = update_state stalled c in
    let again = if c.timer then emit (timer_set (remaining word)) waits_on else waits_on in
    let over = update_state timeout c in
    if is_waiting c.state then (if time_remains word then again else over) else c

pub on_failed : RpcCall → RpcCall
on_failed c = update_state timeout c

pub on_cancel : RpcCall → RpcCall
on_cancel c = update_state canceled (cancel_timer c)

pub is_sent : State → Bool
is_sent sent = true
is_sent s = false

pub on_stall : RpcCall → RpcCall
on_stall c = let c' = update_state stalled c in if is_sent c.state then c' else c

unfoldable pub matches_id : Message → RpcCall → Bool
matches_id m c = id_eq m.id c.target_id

unfoldable pub matches_address : Message → RpcCall → Bool
matches_address m c = addr_eq m.origin c.remote_address
