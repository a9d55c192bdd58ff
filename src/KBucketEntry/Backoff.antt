-- ===== src/KBucketEntry/Backoff.antt =====
-- The two readings of the back-off after failed requests.
use boson_native.Prelude.{ℕ, ◌+◌, ◌-◌, ◌*◌, ◌^◌, ◌≤◌, ◌<◌, max, true, ◌≡◌, ◌↔◌, arith}
use boson_native.Prelude.Int.{pos}
use boson_native.KBucketEntry.{KBucketEntry, elapsed, backoff_window_end, within_backoff_window}

-- For an entry with one to six failed requests, and a time below 2^64 from its last request on,
-- `withinBackoffWindow` holds for 32 minutes, whatever the number of failures.
pub within_backoff_window_lem :
    (now : ℕ) (e : KBucketEntry)
    → 1 ≤ e.failed_requests
    → e.failed_requests ≤ 6
    → e.last_send ≤ now
    → now < 2 ^ 64
    → (within_backoff_window now e ≡ true) ↔ (now < e.last_send + 32 * 60000)
unfolding within_backoff_window
within_backoff_window_lem now e h k l s =
    let five : max 5 (e.failed_requests - 1) ≡ 5 = omega arith in
    let time : elapsed now e.last_send ≡ now - e.last_send = omega arith in
    (λ w. ground arith, λ w. ground arith)

-- `backoffWindowEnd` of an entry with one failed request, sent at a time other than 0, is one minute
-- after that request, while `withinBackoffWindow` holds for 31 minutes more, at times below 2^63.
pub backoff_window_end-within_backoff_window :
    (now : ℕ) (e : KBucketEntry)
    → e.failed_requests ≡ 1
    → 0 < e.last_send
    → e.last_send + 60000 ≤ now
    → now < e.last_send + 32 * 60000
    → now < 2 ^ 63
    → (backoff_window_end e ≡ pos (e.last_send + 60000)) × (within_backoff_window now e ≡ true)
unfolding backoff_window_end
backoff_window_end-within_backoff_window now e f p h k s = (
  ground arith,
  (within_backoff_window_lem now e (omega arith) (omega arith) (omega arith) (omega arith)).1 k,
)
