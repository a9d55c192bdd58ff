-- ===== src/KBucketEntry/Tests.antt =====
-- The theorems on entries at a concrete entry.
use boson_native.Prelude.{◌+◌, true, false, ◌≡◌, refl, arith}
use boson_native.Prelude.Int.{pos}
use boson_native.Samples.{sample_id, sample_addr}
use boson_native.KBucketEntry.{KBucketEntry, backoff_window_end, within_backoff_window}
use boson_native.KBucketEntry.Backoff.{backoff_window_end-within_backoff_window}

-- One request to the node, at the time 1000, failed.
abbrev failed_once : KBucketEntry
failed_once = record {
  ptr = 1;
  id = sample_id 1;
  addr = sample_addr 1;
  created = 1000;
  last_seen = 1000;
  last_send = 1000;
  reachable = false;
  failed_requests = 1;
}

backoff_window_end-within_backoff_window_example :
    (backoff_window_end failed_once ≡ pos (1000 + 60000))
    × (within_backoff_window 500000 failed_once ≡ true)
backoff_window_end-within_backoff_window_example =
    backoff_window_end-within_backoff_window 500000 failed_once refl (omega arith) (omega arith)
      (omega arith) (omega arith)
