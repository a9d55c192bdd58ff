-- ===== src/Id.antt =====
-- include/boson/id.h and src/core/id.cc: 256-bit node ids, the XOR metric and the operations on
-- leading bits. An id is the list of its 32 bytes, the most significant first.
mod Mismatch
pub mod Masks
pub mod Order
pub mod Distance
pub mod Closer
pub mod Bit
pub mod Number
pub mod BitsEqual
pub mod BitsCopy
mod Tests
use boson_native.Prelude.{
  ℕ, zero, suc, ◌+◌, ◌-◌, ◌*◌, ◌/◌, ◌%◌, ◌^◌, ◌<◌, bit_and, bit_or, bit_xor, Ordering, compare,
  Bool, true, false, Option, none, some, List, [], ◌∷◌, ◌++◌, length, get_or, take, drop, All, ltb,
  leb, ◌==◌, ◌≡◌, if◌then◌else◌,
}
use boson_native.Prelude.Int.{ℤ, pos, negsuc}
use mathlib.Core.Option

abbrev pub NodeId : Type 0
NodeId = List ℕ

-- `std::array<uint8_t, 32>`.
pub record IsId (id : NodeId) : Type 0 where
  pub size : length id ≡ 32
  pub bytes : All (λ b. b < 256) id

abbrev pub byte : NodeId → ℕ → ℕ
byte id i = get_or id i 0

-- The loop that both comparisons begin with: the index of the first byte that differs.
pub first_mismatch : NodeId → NodeId → Option ℕ
first_mismatch [] bs = none
first_mismatch (a ∷ as') [] = none
first_mismatch (a ∷ as') (b ∷ bs) =
    let rest = first_mismatch as' bs in if a == b then Option.map suc rest else some 0

pub distance : NodeId → NodeId → NodeId
distance [] bs = []
distance (a ∷ as') [] = []
distance (a ∷ as') (b ∷ bs) = bit_xor a b ∷ distance as' bs

-- -1, 0 and 1 are `lt`, `eq` and `gt`.
pub three_way_compare : NodeId → NodeId → NodeId → Ordering
three_way_compare self id1 id2 = elim (first_mismatch id1 id2) [
  | none ↦ Ordering.eq
  | some mmi ↦
      let a = bit_xor (byte id1 mmi) (byte self mmi) in
      let b = bit_xor (byte id2 mmi) (byte self mmi) in
      if ltb a b then Ordering.lt else if ltb b a then Ordering.gt else Ordering.eq
]

-- The sign of `memcmp`.
unfoldable pub compare_to : NodeId → NodeId → Ordering
compare_to [] bs = Ordering.eq
compare_to (a ∷ as') [] = Ordering.eq
compare_to (a ∷ as') (b ∷ bs) =
    let rest = compare_to as' bs in
    elim (compare a b) [
      | Ordering.lt ↦ Ordering.lt
      | Ordering.eq ↦ rest
      | Ordering.gt ↦ Ordering.gt
    ]

abbrev pub id_eq : NodeId → NodeId → Bool
id_eq a b = elim (compare_to a b) [ Ordering.eq ↦ true | _ ↦ false ]

-- `0xff80 >> (n & 0x07)`, whose low byte keeps the leading bits.
abbrev pub high_mask : ℕ → ℕ
high_mask n = 0xff80 / 2 ^ bit_and n 7

-- `INT_MAX` for the index of a mismatch is `none`. For n from 256 on the source reads behind the ids;
-- the result does not depend on the byte there, which is 0 here.
pub bits_equal : NodeId → NodeId → ℤ → Bool
bits_equal id1 id2 (negsuc n) = true
bits_equal id1 id2 (pos n) =
    let index_to_check = n / 2 ^ 3 in
    let diff = bit_xor (byte id1 index_to_check) (byte id2 index_to_check) in
    let bits_diff = bit_and diff (high_mask n) == 0 in
    elim (first_mismatch id1 id2) [
      | none ↦ true
      | some mmi ↦ if mmi == index_to_check then bits_diff else ltb index_to_check mmi
    ]

abbrev pub set_byte : NodeId → ℕ → ℕ → NodeId
set_byte [] i v = []
set_byte (b ∷ bs) zero v = v ∷ bs
set_byte (b ∷ bs) (suc i) v = b ∷ set_byte bs i v

-- `~mask` on a byte.
abbrev pub not_byte : ℕ → ℕ
not_byte mask = 255 - mask % 256

-- The new `dest`. `memcpy` of `idx` bytes, then two updates of the byte at `idx`.
pub bits_copy : NodeId → NodeId → ℤ → NodeId
bits_copy src dest (negsuc n) = dest
bits_copy src dest (pos depth) =
    let idx = depth / 2 ^ 3 in
    let copied = take idx src ++ drop idx dest in
    let mask = high_mask depth in
    let masked = set_byte copied idx (bit_and (byte copied idx) (not_byte mask)) in
    set_byte masked idx (bit_or (byte masked idx) (bit_and (byte src idx) mask))

-- The number of leading zero bits of one byte that is not 0, as the two tests compute it.
abbrev pub leading_zeros_byte : ℕ → ℕ
leading_zeros_byte b =
    let n = if leb (2 ^ 4) b then 7 - 4 else 7 in
    let c = if leb (2 ^ 4) b then b / 2 ^ 4 else b in
    let m = if leb (2 ^ 2) c then n - 2 else n in
    let d = if leb (2 ^ 2) c then c / 2 ^ 2 else c in m - d / 2

pub leading_zeros : NodeId → ℕ
leading_zeros [] = 0
leading_zeros (b ∷ bs) =
    let rest = leading_zeros bs in if b == 0 then 8 + rest else leading_zeros_byte b
