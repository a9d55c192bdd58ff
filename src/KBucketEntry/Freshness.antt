-- ===== src/KBucketEntry/Freshness.antt =====
-- What an answer of the node, and its silence, change.
use boson_native.Prelude.{ℕ, zero, suc, ◌+◌, ◌-◌, ◌^◌, ◌≤◌, ◌<◌, true, false, ◌≡◌, refl, arith}
use boson_native.KBucketEntry.{
  KBucketEntry, elapsed, is_eligible_for_nodes_list, is_eligible_for_local_lookup, needs_ping,
  needs_replacement, removable_without_replacement, signal_response, signal_request_timeout,
  old_and_stale, within_backoff_window,
}

-- The node's standing: it is handed out, used in lookups, kept, and not pinged.
pub record IsFresh (now : ℕ) (e : KBucketEntry) : Type 0 where
  pub listed : is_eligible_for_nodes_list e ≡ true
  pub looked_up : is_eligible_for_local_lookup e ≡ true
  pub kept : needs_replacement now e ≡ false
  pub kept' : removable_without_replacement e ≡ false
  pub quiet : needs_ping now e ≡ false

-- After a response, whatever the entry was before, it is handed out, used in lookups and kept, and it
-- is not pinged in the next 15 minutes, at times below 2^64.
pub signal_response-IsFresh :
    (seen now : ℕ) (e : KBucketEntry)
    → seen ≤ now
    → now ≤ seen + 900000
    → now < 2 ^ 64
    → IsFresh now (signal_response seen e)
unfolding signal_response is_eligible_for_nodes_list is_eligible_for_local_lookup needs_replacement
    removable_without_replacement needs_ping within_backoff_window
signal_response-IsFresh seen now e h k s =
    let time : elapsed now seen ≡ now - seen = omega arith in
    record {
      listed = ground arith;
      looked_up = ground arith;
      kept = ground arith;
      kept' = ground arith;
      quiet = ground arith;
    }

-- A number of timeouts in a row.
abbrev pub timeouts : ℕ → KBucketEntry → KBucketEntry
timeouts zero e = e
timeouts (suc n) e = timeouts n (signal_request_timeout e)

pub timeouts-failed :
    (n : ℕ) (e : KBucketEntry) → (timeouts n e).failed_requests ≡ e.failed_requests + n
timeouts-failed zero e = omega arith
timeouts-failed (suc n) e =
    let next : (signal_request_timeout e).failed_requests ≡ e.failed_requests + 1 =
      unfold signal_request_timeout in ground arith in
    ground (arith, timeouts-failed n (signal_request_timeout e))

pub timeouts-reachable : (n : ℕ) (e : KBucketEntry) → (timeouts n e).reachable ≡ e.reachable
timeouts-reachable zero e = refl
timeouts-reachable (suc n) e =
    let next : (signal_request_timeout e).reachable ≡ e.reachable =
      unfold signal_request_timeout in ground arith in
    ground (arith, timeouts-reachable n (signal_request_timeout e))

-- A node that never answered is to be replaced after two timeouts or more, whatever the time.
pub timeouts-needs_replacement :
    (n now : ℕ) (e : KBucketEntry)
    → e.reachable ≡ false
    → 2 ≤ n
    → needs_replacement now (timeouts n e) ≡ true
unfolding needs_replacement
timeouts-needs_replacement n now e r h = ground (arith, timeouts-failed n e, timeouts-reachable n e)

timeouts-last_seen : (n : ℕ) (e : KBucketEntry) → (timeouts n e).last_seen ≡ e.last_seen
timeouts-last_seen zero e = refl
timeouts-last_seen (suc n) e =
    let next : (signal_request_timeout e).last_seen ≡ e.last_seen =
      unfold signal_request_timeout in ground arith in
    ground (arith, timeouts-last_seen n (signal_request_timeout e))

-- A node that has answered is kept through any number of timeouts in the 15 minutes after its last
-- answer, at times below 2^64.
pub timeouts-kept :
    (n seen now : ℕ) (e : KBucketEntry)
    → seen ≤ now
    → now ≤ seen + 900000
    → now < 2 ^ 64
    → needs_replacement now (timeouts n (signal_response seen e)) ≡ false
unfolding needs_replacement signal_response old_and_stale
timeouts-kept n seen now e h k s =
    let time : elapsed now seen ≡ now - seen = omega arith in
    let e' = record e { last_seen = seen; failed_requests = 0; reachable = true } in
    ground (arith, timeouts-reachable n e', timeouts-last_seen n e')
