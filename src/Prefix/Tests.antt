-- ===== src/Prefix/Tests.antt =====
-- The theorems on prefixes at a concrete prefix.
use boson_native.Prelude.{true, ◌≡◌, ◌↔◌, arith}
use boson_native.Prelude.Int.{pos}
use boson_native.Samples.{sample_id, sample_id-IsId}
use boson_native.Id.Bit.{bit}
use boson_native.Prefix.{make, is_prefix_of, split_branch}
use boson_native.Prefix.Split.{split_branch-cover, digit}

split_branch-cover_example :
    (is_prefix_of (split_branch (make (sample_id 0xa0) (pos 2)) true) (sample_id 0xbf) ≡ true) ↔ (
      (is_prefix_of (make (sample_id 0xa0) (pos 2)) (sample_id 0xbf) ≡ true)
      × (bit (sample_id 0xbf) 3 ≡ digit true))
split_branch-cover_example =
    split_branch-cover true 2 (sample_id 0xa0) (sample_id 0xbf) (sample_id-IsId 0xa0 (omega arith))
      (sample_id-IsId 0xbf (omega arith)) (omega arith)
