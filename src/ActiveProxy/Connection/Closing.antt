-- ===== src/ActiveProxy/Connection/Closing.antt =====
-- How a connection ends, and what the proxy is not told.
use boson_native.Prelude.{ℕ, ◌≤◌, ◌<◌, none, ◌≡◌, ◌≢◌, refl, arith}
use boson_native.ActiveProxy.PacketType.Decode.{value_of_high}
use boson_native.ActiveProxy.Connection.Transitions.{close-state}
use boson_native.ActiveProxy.Connection.{
  Connection, ConnectionState, initializing, closed, Env, rank, close, process_relay_packet,
  process_typed,
}

close-closed : (c : Connection) → c.state ≡ closed → close c ≡ c
unfolding close
close-closed c h = ground arith

-- Closing a connection a second time does nothing: no socket is closed and nothing is reported twice.
pub close_idempotent : (c : Connection) → close (close c) ≡ close c
close_idempotent c = close-closed (close c) (close-state c)

rank-initializing : (s : ConnectionState) → rank s ≡ 0 → s ≡ initializing
rank-initializing initializing h = refl
rank-initializing s h = absurd (omega arith)

-- A packet whose flag byte is 0xC0 or more terminates the process, unless the challenge is awaited.
pub process_relay_packet_terminates :
    (env : Env) (flag size : ℕ) (c : Connection)
    → 0xC0 ≤ flag
    → flag < 256
    → c.state ≢ initializing
    → process_relay_packet env flag size c ≡ none
unfolding process_relay_packet process_typed
process_relay_packet_terminates env flag size c h k s =
    ground (arith, value_of_high flag h k, rank-initializing c.state)
