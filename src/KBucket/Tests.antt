-- ===== src/KBucket/Tests.antt =====
-- The theorems on buckets at concrete buckets.
use boson_native.Prelude.{ℕ, true, none, some, List, [], ◌∷◌, refl, arith}
use boson_native.Samples.{sample_id, sample_addr}
use boson_native.Id.{compare_to}
use boson_native.SocketAddress.{addr_eq, bytes_eq}
use boson_native.KBucketEntry.{KBucketEntry, matches}
use boson_native.KBucket.{update}
use boson_native.KBucket.Apart.{ApartFrom}
use boson_native.KBucket.Sorted.{IsSorted, update-IsSorted}
use boson_native.KBucket.Operations.{
  Operation, putting, responding, timing_out, sending, run, IsBucket, run-IsBucket,
}

-- The reachable node number `b`, known since the time `created`.
abbrev node : ℕ → ℕ → KBucketEntry
node b created = record {
  ptr = b;
  id = sample_id b;
  addr = sample_addr b;
  created = created;
  last_seen = created;
  last_send = 0;
  reachable = true;
  failed_requests = 0;
}

abbrev history : List (ℕ × Operation)
history =
    (1000, putting (some (node 1 500)))
    ∷ (1100, putting (some (node 2 400)))
    ∷ (1200, sending (sample_id 1))
    ∷ (3200, timing_out (sample_id 1))
    ∷ (3300, responding (sample_id 2))
    ∷ []

run-IsBucket_example : IsBucket (run history [])
run-IsBucket_example = run-IsBucket history [] (record { size = omega arith; apart = tt })

update-IsSorted_example : IsSorted (update none (some (node 2 400)) (node 1 500 ∷ []))
update-IsSorted_example = update-IsSorted none (some (node 2 400)) (node 1 500 ∷ []) (tt, tt)

apart : ApartFrom (node 2 400) (node 1 500 ∷ [])
unfolding matches compare_to addr_eq bytes_eq
apart = (refl, tt)
