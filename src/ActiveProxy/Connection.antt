-- ===== src/ActiveProxy/Connection.antt =====
-- The connection of src/addons/activeproxy/connection.h and connection.cc as a state machine: one
-- function per handler. What a handler does to the outside is appended to `actions`. libuv, the
-- decryption and the proxy's decisions are the fields of `Env`.
pub mod Transitions
pub mod Closing
mod Tests
use boson_native.Prelude.{
  ℕ, ◌+◌, ◌-◌, ◌*◌, ◌<◌, Bool, true, false, not, ◌&&◌, ◌||◌, Option, none, some, List, [], ◌∷◌,
  ◌++◌, ltb, leb, ◌==◌, if◌then◌else◌,
}
use boson_native.ActiveProxy.PacketType
use boson_native.ActiveProxy.PacketType.{
  PacketType, auth, auth_ack, attach, attach_ack, ping, ping_ack, connect, connect_ack, disconnect,
  disconnect_ack, payload, error, value_of,
}

pub data ConnectionState : Type 0 where
  initializing authenticating attaching idling relaying disconnecting closed : ConnectionState

-- The enumerator's number, by which states are compared.
abbrev pub rank : ConnectionState → ℕ
rank initializing = 0
rank authenticating = 1
rank attaching = 2
rank idling = 3
rank relaying = 4
rank disconnecting = 5
rank closed = 6

-- `ConnectionState::accept`.
pub accept : ConnectionState → PacketType → Bool
accept initializing t = false
accept authenticating auth_ack = true
accept authenticating t = false
accept attaching attach_ack = true
accept attaching t = false
accept idling ping_ack = true
accept idling connect = true
accept idling t = false
accept relaying ping_ack = true
accept relaying payload = true
accept relaying disconnect = true
accept relaying t = false
accept disconnecting disconnect = true
accept disconnecting disconnect_ack = true
accept disconnecting payload = true
accept disconnecting t = false
accept closed t = false

-- What the connection does: packets written to the server, calls of the proxy's handlers, and
-- operations on the two sockets.
pub data Action : Type 0 where
  sent : PacketType → Action
  opened open_failed busy idle reported_closed authorized : Action
  connect_upstream shutdown_upstream close_upstream_handle close_relay_handle : Action

pub record Connection : Type 0 where
  pub state : ConnectionState
  pub upstream_open : Bool
  pub upstream_closing : Bool
  pub relay_open : Bool
  pub relay_closing : Bool
  pub upstream_closed : Bool
  pub disconnect_confirms : ℕ
  pub keep_alive_timestamp : ℕ
  pub actions : List Action

-- `write_ok` says whether the write of a packet to the server is taken, `decrypt_ok` whether the
-- packet at hand decrypts.
pub record Env : Type 0 where
  pub write_ok : PacketType → Bool
  pub tcp_init_ok : Bool
  pub tcp_connect_ok : Bool
  pub shutdown_ok : Bool
  pub upstream_write_ok : Bool
  pub decrypt_ok : Bool
  pub authenticated : Bool
  pub allow : Bool
  pub mac_bytes : ℕ
  pub public_key_bytes : ℕ

abbrev pub emit : Action → Connection → Connection
emit a c = record c { actions = c.actions ++ a ∷ [] }

abbrev pub in_state : Connection → ConnectionState → Bool
in_state c s = rank c.state == rank s

close_relay : Connection → Connection
close_relay c =
    if c.relay_open
    then (if c.relay_closing
        then c
        else emit reported_closed (emit close_relay_handle (record c { relay_closing = true })))
    else emit reported_closed c

-- The tail of `close()`, from the test of `upstream.data` on.
close_handles : Connection → Connection
unfolding close_relay
close_handles c =
    if c.upstream_open
    then (if c.upstream_closing
        then c
        else close_relay (emit close_upstream_handle (record c { upstream_closing = true })))
    else close_relay c

pub close : Connection → Connection
unfolding close_handles
close c =
    let old = rank c.state in
    let c1 = record c { state = closed } in
    let c2 = if leb old (rank attaching) then emit open_failed c1 else c1 in
    let c3 = if old == rank relaying then emit idle c2 else c2 in
    if in_state c closed then c else close_handles c3

pub send_relay_packet : Env → PacketType → Connection → Connection
send_relay_packet env t c =
    if in_state c closed then c else if env.write_ok t then emit (sent t) c else close c

-- Also the callback of `uv_shutdown`.
pub close_upstream2 : Connection → Connection
close_upstream2 c =
    let c1 = record c { upstream_closed = true } in
    if in_state c closed || in_state c idling
    then c
    else if not c.upstream_open || c.upstream_closing
    then c1
    else emit close_upstream_handle (record c1 { upstream_closing = true })

pub close_upstream : Env → Connection → Connection
close_upstream env c =
    let c1 = record c { upstream_closed = true; state = disconnecting } in
    let c2 = send_relay_packet env disconnect c1 in
    if in_state c closed || in_state c idling || c.upstream_closed
    then c
    else if env.shutdown_ok
    then emit shutdown_upstream c2
    else close_upstream2 c2

pub open_upstream : Env → Connection → Connection
open_upstream env c =
    let refused = send_relay_packet env connect_ack c in
    let c1 = record c { upstream_open = true; upstream_closing = false; upstream_closed = false } in
    let failed = emit idle (record (close_upstream2 c1) { state = idling }) in
    if not env.tcp_init_ok
    then emit idle (record refused { state = idling })
    else if env.tcp_connect_ok
    then emit connect_upstream c1
    else send_relay_packet env connect_ack failed

-- The callback of `uv_tcp_connect` on the upstream socket.
pub on_upstream_connect : Env → Bool → Connection → Connection
on_upstream_connect env success c =
    let failed = emit idle (record (close_upstream2 c) { state = idling }) in
    send_relay_packet env connect_ack (if success then c else failed)

pub on_challenge : Env → ℕ → Connection → Connection
on_challenge env size c =
    if ltb size 32 || ltb 256 size
    then c
    else if in_state c closed
    then c
    else if env.authenticated
    then send_relay_packet env attach (record c { state = attaching })
    else send_relay_packet env auth (record c { state = authenticating })

abbrev pub packet_header_bytes : ℕ
packet_header_bytes = 2 + 1

abbrev pub auth_ack_size : Env → ℕ
auth_ack_size env = packet_header_bytes + env.mac_bytes + env.public_key_bytes + 2 + 2 + 1

abbrev pub connect_req_size : Env → ℕ
connect_req_size env = packet_header_bytes + env.mac_bytes + 1 + 16 + 2

-- An exception leaves a `noexcept` handler: the process is terminated.
abbrev pub terminated : Option Connection
terminated = none

pub on_authenticate_response : Env → ℕ → Connection → Option Connection
on_authenticate_response env size c =
    if ltb size (auth_ack_size env)
    then some (close c)
    else if not env.decrypt_ok
    then terminated
    else some (emit opened (record (emit authorized c) { state = idling }))

pub on_attach_response : Connection → Connection
on_attach_response c = emit opened (record c { state = idling })

pub on_connect_request : Env → ℕ → Connection → Option Connection
on_connect_request env size c =
    let c1 = emit busy (record c { state = relaying }) in
    if ltb size (connect_req_size env)
    then some (close c)
    else if not env.decrypt_ok
    then terminated
    else if env.allow
    then some (open_upstream env c1)
    else some (emit idle (record (send_relay_packet env connect_ack c1) { state = idling }))

-- `++disconnectConfirms == 2` and what follows.
pub confirm_disconnect : Connection → Connection
confirm_disconnect c =
    if c.disconnect_confirms + 1 == 2
    then emit idle (record c { disconnect_confirms = 0; state = idling })
    else record c { disconnect_confirms = c.disconnect_confirms + 1 }

pub on_disconnect_request : Env → Connection → Connection
on_disconnect_request env c =
    confirm_disconnect (send_relay_packet env disconnect_ack (close_upstream env c))

pub on_data_request : Env → Connection → Option Connection
on_data_request env c =
    if not env.decrypt_ok
    then terminated
    else if env.upstream_write_ok
    then some c
    else some (close_upstream env c)

-- The last `switch` of `processRelayPacket`.
dispatch : Env → PacketType → ℕ → Connection → Option Connection
dispatch env auth_ack size c = on_authenticate_response env size c
dispatch env attach_ack size c = some (on_attach_response c)
dispatch env ping_ack size c = some c
dispatch env connect size c = on_connect_request env size c
dispatch env payload size c = on_data_request env c
dispatch env disconnect size c = some (on_disconnect_request env c)
dispatch env disconnect_ack size c = some (confirm_disconnect c)
dispatch env t size c = some c

is_error : PacketType → Bool
is_error error = true
is_error t = false

process_typed : Env → Option PacketType → ℕ → Connection → Option Connection
process_typed env none size c = terminated
process_typed env (some t) size c =
    if is_error t
    then (if env.decrypt_ok then some (close c) else terminated)
    else if accept c.state t
    then dispatch env t size c
    else some (close c)

-- A packet of the given flag byte and size.
pub process_relay_packet : Env → ℕ → ℕ → Connection → Option Connection
process_relay_packet env flag size c =
    if in_state c initializing
    then some (on_challenge env (size - 2) c)
    else process_typed env (value_of flag) size c

pub periodic_check : Env → ℕ → ℕ → Connection → Connection
periodic_check env now random_shift c =
    if in_state c relaying
    then c
    else if leb (3 * 60000) (now - c.keep_alive_timestamp)
    then close c
    else if in_state c idling && leb (60000 - random_shift) (now - c.keep_alive_timestamp)
    then send_relay_packet env ping c
    else c
