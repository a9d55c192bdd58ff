-- ===== src/Id/Masks.antt =====
-- The masks of `bitsEqual` and `bitsCopy` on one byte, checked at every byte and every shift.
use boson_native.Prelude.{
  ℕ, ◌-◌, ◌*◌, ◌/◌, ◌%◌, ◌^◌, ◌<◌, bit_and, Bool, true, ◌==◌, ==_iff, ◌≡◌, refl, arith,
}
use boson_native.Prelude.Bits.{all_below, all_below_sound, bit_and_seven}
use boson_native.Id.{high_mask, not_byte}

abbrev shifted_mask : ℕ → ℕ
shifted_mask k = 0xff80 / 2 ^ k

unfoldable pub over_bytes : (ℕ → ℕ → Bool) → Bool
over_bytes p = all_below 8 (λ k. all_below 256 (p k))

pub over_bytes_sound :
    (p : ℕ → ℕ → Bool) (k d : ℕ) → over_bytes p ≡ true → k < 8 → d < 256 → p k d ≡ true
unfolding over_bytes
over_bytes_sound p k d h hk hd =
    all_below_sound 256 (p k) d (all_below_sound 8 (λ k. all_below 256 (p k)) k h hk) hd

-- The masked bits are the quotient by a power of two, kept in place.
abbrev keeps_high : ℕ → ℕ → Bool
keeps_high k d = bit_and d (shifted_mask k) == d / 2 ^ (7 - k) * 2 ^ (7 - k)

abbrev keeps_low : ℕ → ℕ → Bool
keeps_low k d = bit_and d (not_byte (shifted_mask k)) == d % 2 ^ (7 - k)

keeps_high_table : over_bytes keeps_high ≡ true
unfolding over_bytes all_below
keeps_high_table = refl

keeps_low_table : over_bytes keeps_low ≡ true
unfolding over_bytes all_below
keeps_low_table = refl

-- How far `high_mask n` is from the lowest bit.
abbrev pub low_bits : ℕ → ℕ
low_bits n = 7 - n % 8

pub high_mask_lem :
    (n d : ℕ) → d < 256 → bit_and d (high_mask n) ≡ d / 2 ^ low_bits n * 2 ^ low_bits n
high_mask_lem n d h =
    rw (bit_and_seven n)
      ((==_iff _ _).0 (over_bytes_sound keeps_high (n % 8) d keeps_high_table (omega arith) h))

pub not_byte_lem : (n d : ℕ) → d < 256 → bit_and d (not_byte (high_mask n)) ≡ d % 2 ^ low_bits n
not_byte_lem n d h =
    rw (bit_and_seven n)
      ((==_iff _ _).0 (over_bytes_sound keeps_low (n % 8) d keeps_low_table (omega arith) h))
