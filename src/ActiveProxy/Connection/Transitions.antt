-- ===== src/ActiveProxy/Connection/Transitions.antt =====
-- Which states a packet from the server can lead to.
use boson_native.Prelude.{ℕ, ◌-◌, Bool, true, false, Option, none, some, ◌≡◌, ◌⊎◌, refl, arith}
use boson_native.ActiveProxy.PacketType.{
  PacketType, auth, auth_ack, attach, attach_ack, connect, connect_ack, disconnect, disconnect_ack,
  payload, value_of,
}
use boson_native.ActiveProxy.Connection.{
  Connection, ConnectionState, initializing, authenticating, attaching, idling, relaying,
  disconnecting, closed, Env, accept, close, send_relay_packet, close_upstream2, close_upstream,
  open_upstream, on_challenge, on_authenticate_response, on_attach_response, on_connect_request,
  confirm_disconnect, on_disconnect_request, on_data_request, process_relay_packet, process_typed,
  dispatch, emit, idle, busy,
}

-- The transitions of the protocol.
abbrev pub may : ConnectionState → ConnectionState → Bool
may initializing initializing = true
may initializing authenticating = true
may initializing attaching = true
may authenticating idling = true
may attaching idling = true
may idling idling = true
may idling relaying = true
may relaying relaying = true
may relaying disconnecting = true
may relaying idling = true
may disconnecting disconnecting = true
may disconnecting idling = true
may s closed = true
may s t = false

pub close-state : (c : Connection) → (close c).state ≡ closed
unfolding close
close-state c = ground arith

-- A write to the server leaves the state as it is, or closes the connection.
send-state :
    (env : Env) (t : PacketType) (c : Connection)
    → ((send_relay_packet env t c).state ≡ c.state) ⊎ ((send_relay_packet env t c).state ≡ closed)
unfolding send_relay_packet
send-state env t c = ground (arith, close-state c)

close_upstream2-state : (c : Connection) → (close_upstream2 c).state ≡ c.state
unfolding close_upstream2
close_upstream2-state c = ground arith

-- Where the handlers that run in a session lead to.
abbrev Within : ConnectionState → ConnectionState → ConnectionState → Type 0
Within s t u = (u ≡ s) ⊎ (u ≡ t) ⊎ (u ≡ closed)

close_upstream-state :
    (env : Env) (c : Connection) → Within c.state disconnecting (close_upstream env c).state
unfolding close_upstream
close_upstream-state env c =
    let after = record c { upstream_closed = true; state = disconnecting } in
    ground (
      arith,
      send-state env disconnect after,
      close_upstream2-state (send_relay_packet env disconnect after),
    )

open_upstream-state :
    (env : Env) (c : Connection) → Within c.state idling (open_upstream env c).state
unfolding open_upstream
open_upstream-state env c =
    let c1 = record c { upstream_open = true; upstream_closing = false; upstream_closed = false } in
    ground (
      arith,
      send-state env connect_ack (emit idle (record (close_upstream2 c1) { state = idling })),
    )

on_challenge-state :
    (env : Env) (size : ℕ) (c : Connection)
    → ((on_challenge env size c).state ≡ authenticating)
      ⊎ Within c.state attaching (on_challenge env size c).state
unfolding on_challenge
on_challenge-state env size c = ground (
  arith,
  send-state env attach (record c { state = attaching }),
  send-state env auth (record c { state = authenticating }),
)

on_connect_request-state :
    (env : Env) (size : ℕ) (c c' : Connection)
    → on_connect_request env size c ≡ some c'
    → Within relaying idling c'.state
unfolding on_connect_request
on_connect_request-state env size c c' h =
    ground
      (arith, close-state c, open_upstream-state env (emit busy (record c { state = relaying })))

on_disconnect_request-state :
    (env : Env) (c : Connection)
    → Within disconnecting idling (on_disconnect_request env c).state
      ⊎ ((on_disconnect_request env c).state ≡ c.state)
unfolding on_disconnect_request confirm_disconnect
on_disconnect_request-state env c =
    ground (arith, close_upstream-state env c, send-state env disconnect_ack (close_upstream env c))

on_authenticate_response-state :
    (env : Env) (size : ℕ) (c c' : Connection)
    → on_authenticate_response env size c ≡ some c'
    → (c'.state ≡ idling) ⊎ (c'.state ≡ closed)
unfolding on_authenticate_response
on_authenticate_response-state env size c c' h = ground (arith, close-state c)

on_attach_response-state : (c : Connection) → (on_attach_response c).state ≡ idling
unfolding on_attach_response
on_attach_response-state c = refl

on_data_request-state :
    (env : Env) (c c' : Connection)
    → on_data_request env c ≡ some c'
    → Within c.state disconnecting c'.state
unfolding on_data_request
on_data_request-state env c c' h = ground (arith, close_upstream-state env c)

confirm_disconnect-state :
    (c : Connection)
    → ((confirm_disconnect c).state ≡ c.state) ⊎ ((confirm_disconnect c).state ≡ idling)
unfolding confirm_disconnect
confirm_disconnect-state c = ground arith

may_close : (s : ConnectionState) → may s closed ≡ true
may_close initializing = refl
may_close s = refl

-- From each state, the handler that the packet type selects.
dispatch-may :
    (env : Env) (t : PacketType) (size : ℕ) (c c' : Connection)
    → accept c.state t ≡ true
    → dispatch env t size c ≡ some c'
    → may c.state c'.state ≡ true
unfolding dispatch accept
dispatch-may env auth_ack size c c' a h =
    ground (arith, on_authenticate_response-state env size c c' h)
dispatch-may env attach_ack size c c' a h = ground (arith, on_attach_response-state c)
dispatch-may env connect size c c' a h = ground (arith, on_connect_request-state env size c c' h)
dispatch-may env payload size c c' a h = ground (arith, on_data_request-state env c c' h)
dispatch-may env disconnect size c c' a h = ground (arith, on_disconnect_request-state env c)
dispatch-may env disconnect_ack size c c' a h = ground (arith, confirm_disconnect-state c)
dispatch-may env t size c c' a h = ground arith

process_typed-may :
    (env : Env) (t : Option PacketType) (size : ℕ) (c c' : Connection)
    → process_typed env t size c ≡ some c'
    → may c.state c'.state ≡ true
unfolding process_typed
process_typed-may env none size c c' h = cc
process_typed-may env (some t) size c c' h =
    ground (arith, close-state c, may_close c.state, dispatch-may env t size c c')

-- Whatever packet arrives, a handler that returns has followed the protocol: a session starts only
-- from the idle state, a new connection becomes idle only after authentication or attachment, and a
-- closed one stays closed.
pub process_relay_packet-may :
    (env : Env) (flag size : ℕ) (c c' : Connection)
    → process_relay_packet env flag size c ≡ some c'
    → may c.state c'.state ≡ true
unfolding process_relay_packet
process_relay_packet-may env flag size c c' h =
    ground
      (arith, on_challenge-state env (size - 2) c, process_typed-may env (value_of flag) size c c')
