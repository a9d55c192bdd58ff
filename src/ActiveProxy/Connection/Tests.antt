-- ===== src/ActiveProxy/Connection/Tests.antt =====
-- The theorems on connections at concrete connections.
use boson_native.Prelude.{true, false, none, some, [], ◌≡◌, ◌≢◌, refl, arith}
use boson_native.ActiveProxy.Connection.{
  Connection, ConnectionState, initializing, idling, disconnecting, closed, Env, close,
  on_challenge, process_relay_packet,
}
use boson_native.ActiveProxy.Connection.Transitions.{may, process_relay_packet-may}
use boson_native.ActiveProxy.Connection.Closing.{process_relay_packet_terminates}

abbrev env : Env
env = record {
  write_ok = λ t. true;
  tcp_init_ok = true;
  tcp_connect_ok = true;
  shutdown_ok = true;
  upstream_write_ok = true;
  decrypt_ok = true;
  authenticated = false;
  allow = true;
  mac_bytes = 16;
  public_key_bytes = 32;
}

-- A connection whose upstream socket is being closed.
abbrev connection : ConnectionState → Connection
connection s = record {
  state = s;
  upstream_open = true;
  upstream_closing = true;
  relay_open = true;
  relay_closing = false;
  upstream_closed = false;
  disconnect_confirms = 0;
  keep_alive_timestamp = 1000;
  actions = [];
}

-- While the upstream socket is being closed, `close` leaves the connection to the server open and
-- does not report the end.
closed_early :
    close (connection disconnecting) ≡ record (connection disconnecting) { state = closed }
unfolding close
closed_early = refl

awake : idling ≢ initializing
awake h = cc

process_relay_packet_terminates_example :
    process_relay_packet env 0xF3 40 (connection idling) ≡ none
process_relay_packet_terminates_example =
    process_relay_packet_terminates env 0xF3 40 (connection idling) (omega arith) (omega arith)
      awake

challenged :
    process_relay_packet env 0x11 66 (connection initializing)
    ≡ some (on_challenge env 64 (connection initializing))
unfolding process_relay_packet
challenged = refl

process_relay_packet-may_example :
    may initializing (on_challenge env 64 (connection initializing)).state ≡ true
process_relay_packet-may_example =
    process_relay_packet-may env 0x11 66 (connection initializing)
      (on_challenge env 64 (connection initializing)) challenged
