-- ===== src/ActiveProxy/PacketType/Decode.antt =====
-- Decoding a flag byte undoes choosing one, for every type but `ERROR`.
use boson_native.Prelude.{ℕ, ◌+◌, ◌-◌, ◌≤◌, ◌<◌, bit_or, none, some, ◌≡◌, ◌≢◌, refl, arith}
use boson_native.ActiveProxy.PacketType.{
  PacketType, auth, auth_ack, attach, attach_ack, ping, ping_ack, connect, connect_ack, disconnect,
  disconnect_ack, payload, error, value, value_of, random,
}
use boson_native.ActiveProxy.PacketType.Codes.{or_ack, and_ack, and_type}

-- Which flags stand for which type.
abbrev pub InRange : PacketType → ℕ → Type 0
InRange auth v = v ≤ 0x07
InRange auth_ack v = (0x80 ≤ v) × (v ≤ 0x87)
InRange attach v = (0x08 ≤ v) × (v ≤ 0x0F)
InRange attach_ack v = (0x88 ≤ v) × (v ≤ 0x8F)
InRange ping v = (0x10 ≤ v) × (v ≤ 0x1F)
InRange ping_ack v = (0x90 ≤ v) × (v ≤ 0x9F)
InRange connect v = (0x20 ≤ v) × (v ≤ 0x2F)
InRange connect_ack v = (0xA0 ≤ v) × (v ≤ 0xAF)
InRange disconnect v = (0x30 ≤ v) × (v ≤ 0x3F)
InRange disconnect_ack v = (0xB0 ≤ v) × (v ≤ 0xBF)
InRange payload v = (0x40 ≤ v) × (v ≤ 0x6F)
InRange error v = (0x70 ≤ v) × (v ≤ 0x7F)

pub value_of-InRange : (t : PacketType) (v : ℕ) → InRange t v → value_of v ≡ some t
unfolding value_of
value_of-InRange auth v h = ground (arith, and_ack v (omega arith), and_type v (omega arith))
value_of-InRange t v h = ground (arith, and_ack v (omega arith), and_type v (omega arith))

pub value_of_high : (v : ℕ) → 0xC0 ≤ v → v < 256 → value_of v ≡ none
unfolding value_of
value_of_high v h k = ground (arith, and_ack v k, and_type v k)

-- The generator returns a number below its bound.
module _ (uint8 : ℕ → ℕ) (uniform : (bound : ℕ) → 0 < bound → uint8 bound < bound) where
  random-range :
      (lo hi : ℕ) → lo ≤ hi → hi < 128 → (lo ≤ random uint8 lo hi) × (random uint8 lo hi ≤ hi)
  random-range lo hi h k = omega (arith, uniform (hi - lo + 1) (omega arith))

  acked-range :
      (lo hi : ℕ)
      → lo ≤ hi
      → hi < 128
      → (lo + 128 ≤ bit_or (random uint8 lo hi) 0x80)
        × (bit_or (random uint8 lo hi) 0x80 ≤ hi + 128)
  acked-range lo hi h k =
      let r = random-range lo hi h k in rw (or_ack (random uint8 lo hi) (omega arith)) (omega arith)

  value-InRange : (t : PacketType) → t ≢ error → InRange t (value uint8 t)
  unfolding value
  value-InRange auth h = (random-range 0x00 0x07 (omega arith) (omega arith)).1
  value-InRange auth_ack h = acked-range 0x00 0x07 (omega arith) (omega arith)
  value-InRange attach h = random-range 0x08 0x0F (omega arith) (omega arith)
  value-InRange attach_ack h = acked-range 0x08 0x0F (omega arith) (omega arith)
  value-InRange ping h = random-range 0x10 0x1F (omega arith) (omega arith)
  value-InRange ping_ack h = acked-range 0x10 0x1F (omega arith) (omega arith)
  value-InRange connect h = random-range 0x20 0x2F (omega arith) (omega arith)
  value-InRange connect_ack h = acked-range 0x20 0x2F (omega arith) (omega arith)
  value-InRange disconnect h = random-range 0x30 0x3F (omega arith) (omega arith)
  value-InRange disconnect_ack h = acked-range 0x30 0x3F (omega arith) (omega arith)
  value-InRange payload h = random-range 0x40 0x6F (omega arith) (omega arith)
  value-InRange error h = absurd (h refl)

  -- For a generator that stays below its bound, every packet type but `ERROR` is read back from each
  -- flag byte that is sent for it.
  pub value_of-value : (t : PacketType) → t ≢ error → value_of (value uint8 t) ≡ some t
  value_of-value t h = value_of-InRange t (value uint8 t) (value-InRange t h)

  -- For a generator that stays below its bound, the flag byte sent for `ERROR` is always refused.
  pub value_of-error : value_of (value uint8 error) ≡ none
  unfolding value
  value_of-error =
      let r = acked-range 0x70 0x7F (omega arith) (omega arith) in
      value_of_high (value uint8 error) (omega arith) (omega arith)
