-- ===== src/ActiveProxy/Relay/Tests.antt =====
-- Framing at concrete bytes: two packets, of four and of three bytes, in three chunks.
use boson_native.Prelude.{
  ℕ, List, [], ◌∷◌, ◌++◌, length, true, false, Option, some, ◌≡◌, inl, refl, arith,
}
use boson_native.ActiveProxy.Connection.{Env, Connection, idling, process_relay_packet}
use boson_native.ActiveProxy.Relay.{
  read_packets, complete_packet, on_relay_read, read_chunks, reading,
}
use boson_native.ActiveProxy.Relay.Frames.{process_all, left_with}
use boson_native.ActiveProxy.Relay.Chunks.{read_chunks-stream}

abbrev first_packet : List ℕ
first_packet = 0 ∷ 4 ∷ 0x90 ∷ 7 ∷ []

abbrev second_packet : List ℕ
second_packet = 0 ∷ 3 ∷ 0x20 ∷ []

abbrev two_packets : List (List ℕ)
two_packets = first_packet ∷ second_packet ∷ []

abbrev three_chunks : List (List ℕ)
three_chunks = (0 ∷ []) ∷ (4 ∷ 0x90 ∷ 7 ∷ 0 ∷ []) ∷ (3 ∷ 0x20 ∷ 0 ∷ 9 ∷ []) ∷ []

abbrev env : Env
env = record {
  write_ok = λ t. true;
  tcp_init_ok = true;
  tcp_connect_ok = true;
  shutdown_ok = true;
  upstream_write_ok = true;
  decrypt_ok = true;
  authenticated = false;
  allow = true;
  mac_bytes = 16;
  public_key_bytes = 32;
}

abbrev connection : Connection
connection = record {
  state = idling;
  upstream_open = false;
  upstream_closing = false;
  relay_open = true;
  relay_closing = false;
  upstream_closed = false;
  disconnect_confirms = 0;
  keep_alive_timestamp = 1000;
  actions = [];
}

-- The handlers of the connection.
abbrev handler : ℕ → List ℕ → Connection → Option Connection
handler f packet c = process_relay_packet env f (length packet) c

read_chunks-stream_example :
    read_chunks handler 5 connection [] three_chunks
    ≡ left_with handler (0 ∷ 9 ∷ []) (process_all handler two_packets connection)
read_chunks-stream_example =
    read_chunks-stream handler 5 connection three_chunks two_packets (0 ∷ 9 ∷ [])
      ((omega arith, refl), ((omega arith, refl), tt)) (inl (omega arith)) (omega arith) refl

-- The packets in the order in which they are processed.
read_three_chunks :
    read_chunks (λ f p ps. some (ps ++ p ∷ [])) 5 [] [] three_chunks
    ≡ reading two_packets (0 ∷ 9 ∷ [])
unfolding read_chunks on_relay_read complete_packet read_packets
read_three_chunks = refl
