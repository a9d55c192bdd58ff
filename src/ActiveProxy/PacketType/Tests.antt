-- ===== src/ActiveProxy/PacketType/Tests.antt =====
-- The packet type theorems at concrete draws of the generator.
use boson_native.Prelude.{ℕ, zero, suc, ◌<◌, none, some, ◌≡◌, refl, arith}
use boson_native.ActiveProxy.PacketType.{ping, connect_ack, error, value, value_of}
use boson_native.ActiveProxy.PacketType.Decode.{value_of-value, value_of-error}

-- A generator that returns the largest number below its bound.
abbrev largest : ℕ → ℕ
largest zero = 0
largest (suc n) = n

largest-lt : (bound : ℕ) → 0 < bound → largest bound < bound
largest-lt zero h = elim h [ ]
largest-lt (suc n) h = omega arith

value_of-value_example : value_of (value largest connect_ack) ≡ some connect_ack
value_of-value_example = value_of-value largest largest-lt connect_ack (λ e. cc)

value_of-error_example : value_of (value largest error) ≡ none
value_of-error_example = value_of-error largest largest-lt

flag_of_ping : value_of 0x12 ≡ some ping
unfolding value_of
flag_of_ping = refl
