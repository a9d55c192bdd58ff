-- ===== src/ActiveProxy/PacketType.antt =====
-- src/addons/activeproxy/packettype.h: the packet types and their randomised flag byte.
mod Codes
pub mod Decode
mod Tests
use boson_native.Prelude.{
  ℕ, ◌+◌, ◌-◌, ◌/◌, ◌%◌, ◌^◌, bit_and, bit_or, Bool, true, false, not, ◌&&◌, Option, none, some,
  leb, ◌==◌, if◌then◌else◌,
}

pub data PacketType : Type 0 where
  auth auth_ack attach attach_ack ping ping_ack connect connect_ack : PacketType
  disconnect disconnect_ack payload error : PacketType

abbrev pub auth_min : ℕ
auth_min = 0x00

abbrev pub auth_max : ℕ
auth_max = 0x07

abbrev pub attach_min : ℕ
attach_min = 0x08

abbrev pub attach_max : ℕ
attach_max = 0x0F

abbrev pub ping_min : ℕ
ping_min = 0x10

abbrev pub ping_max : ℕ
ping_max = 0x1F

abbrev pub connect_min : ℕ
connect_min = 0x20

abbrev pub connect_max : ℕ
connect_max = 0x2F

abbrev pub disconnect_min : ℕ
disconnect_min = 0x30

abbrev pub disconnect_max : ℕ
disconnect_max = 0x3F

abbrev pub data_min : ℕ
data_min = 0x40

abbrev pub data_max : ℕ
data_max = 0x6F

abbrev pub error_min : ℕ
error_min = 0x70

abbrev pub error_max : ℕ
error_max = 0x7F

abbrev pub ack_mask : ℕ
ack_mask = 0x80

abbrev pub type_mask : ℕ
type_mask = 0x7F

-- `Random::uint8(bound)` is the argument: what the library's generator returned for the bound.
abbrev pub random : (ℕ → ℕ) → ℕ → ℕ → ℕ
random uint8 lo hi = (uint8 (hi - lo + 1) + lo) % 2 ^ 8

-- `value()`: a random flag of the type's range. (`DATA` is `payload` here.)
pub value : (ℕ → ℕ) → PacketType → ℕ
value uint8 auth = random uint8 auth_min auth_max
value uint8 auth_ack = bit_or (random uint8 auth_min auth_max) ack_mask
value uint8 attach = random uint8 attach_min attach_max
value uint8 attach_ack = bit_or (random uint8 attach_min attach_max) ack_mask
value uint8 ping = random uint8 ping_min ping_max
value uint8 ping_ack = bit_or (random uint8 ping_min ping_max) ack_mask
value uint8 connect = random uint8 connect_min connect_max
value uint8 connect_ack = bit_or (random uint8 connect_min connect_max) ack_mask
value uint8 disconnect = random uint8 disconnect_min disconnect_max
value uint8 disconnect_ack = bit_or (random uint8 disconnect_min disconnect_max) ack_mask
value uint8 payload = random uint8 data_min data_max
value uint8 error = bit_or (random uint8 error_min error_max) ack_mask

-- `valueOf`; `none` is the exception.
pub value_of : ℕ → Option PacketType
value_of v =
    let ack = not (bit_and v ack_mask == 0) in
    let kind = bit_and v type_mask in
    let high = kind / 2 ^ 4 in
    if high == 0
    then (if leb kind auth_max
        then (if ack then some auth_ack else some auth)
        else (if ack then some attach_ack else some attach))
    else if high == 1
    then (if ack then some ping_ack else some ping)
    else if high == 2
    then (if ack then some connect_ack else some connect)
    else if high == 3
    then (if ack then some disconnect_ack else some disconnect)
    else if leb 4 high && leb high 6
    then (if ack then none else some payload)
    else if high == 7
    then (if ack then none else some error)
    else none
