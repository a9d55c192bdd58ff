-- ===== src/Prefix.antt =====
-- include/boson/prefix.h and src/core/prefix.cc: prefixes of ids. A prefix is an id and the index of
-- its last significant bit, -1 for the prefix of every id.
pub mod Cover
pub mod Split
pub mod Blunt
pub mod Bits
pub mod Interval
pub mod Halves
pub mod Compared
mod Tests
use boson_native.Prelude.{
  ℕ, zero, suc, ◌+◌, ◌-◌, ◌/◌, ◌%◌, ◌^◌, bit_and, bit_or, Bool, true, false, ◌&&◌, List, [], ◌∷◌,
  Ordering, ◌≡◌, if◌then◌else◌,
}
use boson_native.Prelude.Int.{ℤ, pos, negsuc, suc_ℤ, pred_ℤ, int_eq, int_lt}
use boson_native.Id.{
  NodeId, byte, distance, id_eq, compare_to, bits_equal, bits_copy, set_byte, not_byte,
}

pub record Prefix : Type 0 where
  pub id : NodeId
  pub depth : ℤ

abbrev pub filled : ℕ → ℕ → NodeId
filled b zero = []
filled b (suc n) = b ∷ filled b n

-- `Id()` and `Id::MAX_ID`.
abbrev pub zero_id : NodeId
zero_id = filled 0 32

abbrev pub max_id : NodeId
max_id = filled 0xff 32

pub make : NodeId → ℤ → Prefix
make id depth = record { id = bits_copy id zero_id depth; depth = depth }

pub is_prefix_of : Prefix → NodeId → Bool
is_prefix_of p id = bits_equal p.id id p.depth

pub is_splittable : Prefix → Bool
is_splittable p = int_lt p.depth (pos (256 - 1))

pub first : Prefix → NodeId
first p = p.id

pub last : Prefix → NodeId
unfolding make
last p = let trailing_bits = distance (make max_id p.depth).id max_id in distance p.id trailing_bits

-- The copy constructor masks the id again.
abbrev copy : Prefix → Prefix
copy p = make p.id p.depth

set_tail : ℕ → NodeId → NodeId
set_tail bit id =
    let i = bit / 2 ^ 3 in set_byte id i (bit_and (byte id i) (not_byte (0x80 / 2 ^ bit_and bit 7)))

pub get_parent : Prefix → Prefix
unfolding make set_tail
get_parent p = elim p.depth [
  | negsuc n ↦ copy p
  | pos n ↦ record { id = set_tail n (copy p).id; depth = pred_ℤ p.depth }
]

-- The two assignments to the byte of the new bit.
abbrev pub set_bit : Bool → ℕ → NodeId → NodeId
set_bit true d id = set_byte id (d / 8) (bit_or (byte id (d / 8)) (0x80 / 2 ^ (d % 8)))
set_bit false d id = set_byte id (d / 8) (bit_and (byte id (d / 8)) (not_byte (0x80 / 2 ^ (d % 8))))

-- `++branch.depth` of a depth of at least -1.
abbrev pub next_bit : ℤ → ℕ
next_bit (pos n) = suc n
next_bit (negsuc n) = 0

pub split_branch : Prefix → Bool → Prefix
split_branch p high =
    let branch = make p.id p.depth in
    let d = next_bit p.depth in record { id = set_bit high d branch.id; depth = pos d }

pub is_sibling_of : Prefix → Prefix → Bool
is_sibling_of p other = int_eq p.depth other.depth && bits_equal p.id other.id (pred_ℤ p.depth)

pub equals : Prefix → Prefix → Bool
equals p q = int_eq p.depth q.depth && id_eq p.id q.id

-- `compareTo`, inherited from the id.
pub compare_prefixes : Prefix → Prefix → Ordering
compare_prefixes p q = compare_to p.id q.id
