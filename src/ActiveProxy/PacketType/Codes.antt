-- ===== src/ActiveProxy/PacketType/Codes.antt =====
-- The bit operations of the flag byte as arithmetic.
use boson_native.Prelude.{
  ℕ, ◌+◌, ◌*◌, ◌/◌, ◌%◌, ◌<◌, bit_and, bit_or, true, ◌==◌, ==_iff, ◌≡◌, refl,
}
use boson_native.Prelude.Bits.{all_below, all_below_sound}

or_ack_table : all_below 128 (λ v. bit_or v 0x80 == v + 128) ≡ true
unfolding all_below
or_ack_table = refl

pub or_ack : (v : ℕ) → v < 128 → bit_or v 0x80 ≡ v + 128
or_ack v h = (==_iff _ _).0 (all_below_sound 128 _ v or_ack_table h)

and_ack_table : all_below 256 (λ v. bit_and v 0x80 == v / 128 * 128) ≡ true
unfolding all_below
and_ack_table = refl

pub and_ack : (v : ℕ) → v < 256 → bit_and v 0x80 ≡ v / 128 * 128
and_ack v h = (==_iff _ _).0 (all_below_sound 256 _ v and_ack_table h)

and_type_table : all_below 256 (λ v. bit_and v 0x7F == v % 128) ≡ true
unfolding all_below
and_type_table = refl

pub and_type : (v : ℕ) → v < 256 → bit_and v 0x7F ≡ v % 128
and_type v h = (==_iff _ _).0 (all_below_sound 256 _ v and_type_table h)
