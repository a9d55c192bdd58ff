-- ===== src/Id/Tests.antt =====
-- The theorems on ids at concrete ids.
use boson_native.Prelude.{ℕ, ◌<◌, true, Ordering, ◌≡◌, ◌↔◌, refl, arith}
use boson_native.Prelude.Int.{pos}
use boson_native.Samples.{sample_id, sample_id-IsId}
use boson_native.Id.{
  IsId, distance, three_way_compare, compare_to, first_mismatch, bits_equal, bits_copy,
}
use boson_native.Id.Distance.{three_way_compare-distance}
use boson_native.Id.BitsEqual.{SamePrefix, bits_equal_iff}
use boson_native.Id.BitsCopy.{IsCopied, bits_copy_lem}

valid : (b : ℕ) → b < 256 → IsId (sample_id b)
valid b h = sample_id-IsId b h

three_way_compare-distance_example :
    three_way_compare (sample_id 5) (sample_id 1) (sample_id 9)
    ≡ compare_to (distance (sample_id 5) (sample_id 1)) (distance (sample_id 5) (sample_id 9))
three_way_compare-distance_example =
    three_way_compare-distance (sample_id 5) (sample_id 1) (sample_id 9) refl refl

-- The distances of 4, 1 and 9 from 5 are 1, 4 and 12.
nearer : three_way_compare (sample_id 5) (sample_id 4) (sample_id 1) ≡ Ordering.lt
unfolding three_way_compare first_mismatch
nearer = refl

near : three_way_compare (sample_id 5) (sample_id 1) (sample_id 9) ≡ Ordering.lt
unfolding three_way_compare first_mismatch
near = refl

bits_equal_iff_example :
    (bits_equal (sample_id 0xa0) (sample_id 0xa8) (pos 4) ≡ true)
    ↔ SamePrefix 4 (sample_id 0xa0) (sample_id 0xa8)
bits_equal_iff_example =
    bits_equal_iff 4 (sample_id 0xa0) (sample_id 0xa8) (valid 0xa0 (omega arith))
      (valid 0xa8 (omega arith))

bits_copy_lem_example :
    IsCopied 3
      (sample_id 0xa7)
      (sample_id 0x5f)
      (bits_copy (sample_id 0xa7) (sample_id 0x5f) (pos 3))
bits_copy_lem_example =
    bits_copy_lem 3 (sample_id 0xa7) (sample_id 0x5f) (valid 0xa7 (omega arith))
      (valid 0x5f (omega arith)) (omega arith)

-- The four leading bits of the source, the others of the destination.
bits_copied : bits_copy (sample_id 0xa7) (sample_id 0x5f) (pos 3) ≡ sample_id 0xaf
unfolding bits_copy
bits_copied = refl
