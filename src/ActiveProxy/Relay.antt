-- ===== src/ActiveProxy/Relay.antt =====
-- The packet framing of src/addons/activeproxy/connection.cc: `onRelayRead` cuts the byte stream
-- from the server into packets and keeps an incomplete one in the sticky buffer. A packet begins
-- with its size, two bytes, the most significant first. What `processRelayPacket` does with a packet, of
-- which it reads the third byte whatever the size, is the parameter `process`; it gives `none` where it
-- terminates the process.
mod Frames
pub mod Reassembly
pub mod Chunks
mod Tests
use boson_native.Prelude.{
  ℕ, zero, suc, ◌+◌, ◌-◌, ◌*◌, ◌≤◌, ◌<◌, Bool, true, false, Option, none, some, List, [], ◌∷◌, ◌++◌,
  length, get_or, take, drop, ltb, ◌≡◌, if◌then◌else◌,
}

abbrev pub packet_header_bytes : ℕ
packet_header_bytes = 2 + 1

-- `ntohs` of the first two bytes.
abbrev pub packet_size : List ℕ → ℕ
packet_size bytes = get_or bytes 0 0 * 256 + get_or bytes 1 0

-- The third byte.
abbrev pub flag : List ℕ → ℕ
flag bytes = get_or bytes 2 0

-- How a read ends: the rounds of the model run out, the process is terminated, or the state and the
-- sticky buffer are left.
pub data Outcome {ℓ} (S : Type ℓ) : Type ℓ where
  out_of_rounds terminated : Outcome S
  reading : S → List ℕ → Outcome S

-- What follows a packet that was processed.
abbrev pub next {ℓ} : {S : Type ℓ} → Option S → (S → Outcome S) → Outcome S
next none f = terminated
next (some s) f = f s

module _ {ℓ} {S : Type ℓ} (process : ℕ → List ℕ → S → Option S) where
  -- `while (remaining > 0)`, where the fuel is the number of rounds.
  pub read_packets : ℕ → S → List ℕ → Outcome S
  read_packets zero s rest = out_of_rounds
  read_packets (suc rounds) s [] = reading s []
  read_packets (suc rounds) s (b ∷ bs) =
      let rest = b ∷ bs in
      let size = packet_size rest in
      let further =
        next (process (flag rest) (take size rest) s)
          (λ s'. read_packets rounds s' (drop size rest)) in
      if ltb (length rest) packet_header_bytes
      then reading s rest
      else if ltb (length rest) size
      then reading s rest
      else further

  -- The part for a sticky buffer that holds a header. `rs` is negative where the buffer is longer than
  -- the packet; the comparison with the unsigned `remaining` then takes it for a large number.
  pub complete_packet : ℕ → S → List ℕ → List ℕ → Outcome S
  complete_packet rounds s sticky rest =
      let size = packet_size sticky in
      let rs = size - length sticky in
      let packet = sticky ++ take rs rest in
      let more =
        next (process (flag packet) packet s) (λ s'. read_packets rounds s' (drop rs rest)) in
      if ltb size (length sticky)
      then reading s (sticky ++ rest)
      else if ltb (length rest) rs
      then reading s (sticky ++ rest)
      else more

  pub on_relay_read : ℕ → S → List ℕ → List ℕ → Outcome S
  on_relay_read rounds s [] input = read_packets rounds s input
  on_relay_read rounds s (b ∷ bs) input =
      let sticky = b ∷ bs in
      let rs = packet_header_bytes - length sticky in
      if ltb (length sticky) packet_header_bytes
      then (if ltb (length input) rs
          then reading s (sticky ++ input)
          else complete_packet rounds s (sticky ++ take rs input) (drop rs input))
      else complete_packet rounds s sticky input

  -- The chunks that the socket delivers, one after another.
  pub read_chunks : ℕ → S → List ℕ → List (List ℕ) → Outcome S
  read_chunks rounds s sticky [] = reading s sticky
  read_chunks rounds s sticky (chunk ∷ chunks) = elim (on_relay_read rounds s sticky chunk) [
    | out_of_rounds ↦ out_of_rounds
    | terminated ↦ terminated
    | reading s' sticky' ↦ read_chunks rounds s' sticky' chunks
  ]
