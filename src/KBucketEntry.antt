-- ===== src/KBucketEntry.antt =====
-- src/core/kbucket_entry.h and kbucket_entry.cc: what the routing table knows of one node. Times are
-- `uint64_t` milliseconds, so a difference is taken modulo 2^64. `ptr` is the identity of the shared
-- object, by which pointers are compared.
pub mod Backoff
pub mod Freshness
pub mod Matching
mod Tests
use boson_native.Prelude.{
  ℕ, ◌+◌, ◌-◌, ◌*◌, ◌%◌, ◌^◌, min, max, Bool, true, false, not, ◌&&◌, ◌||◌, ltb, leb, ◌==◌,
  if◌then◌else◌,
}
use boson_native.Prelude.Int.{ℤ, negsuc, signed64}
use boson_native.Id.{NodeId, id_eq}
use boson_native.SocketAddress.{SocketAddress, addr_eq}

pub record KBucketEntry : Type 0 where
  pub ptr : ℕ
  pub id : NodeId
  pub addr : SocketAddress
  pub created : ℕ
  pub last_seen : ℕ
  pub last_send : ℕ
  pub reachable : Bool
  pub failed_requests : ℕ

abbrev pub kbucket_max_timeouts : ℕ
kbucket_max_timeouts = 5

abbrev pub old_and_stale_timeouts : ℕ
old_and_stale_timeouts = 2

abbrev pub old_and_stale_time : ℕ
old_and_stale_time = 15 * 60 * 1000

abbrev pub ping_backoff_base : ℕ
ping_backoff_base = 60 * 1000

-- `now - then` on `uint64_t`.
abbrev pub elapsed : ℕ → ℕ → ℕ
elapsed now then_ = (now + 2 ^ 64 - then_) % 2 ^ 64

pub new_entry : ℕ → ℕ → NodeId → SocketAddress → KBucketEntry
new_entry now ptr id addr = record {
  ptr = ptr;
  id = id;
  addr = addr;
  created = now;
  last_seen = now;
  last_send = 0;
  reachable = false;
  failed_requests = 0;
}

unfoldable pub matches : KBucketEntry → KBucketEntry → Bool
matches a b = id_eq a.id b.id || addr_eq a.addr b.addr

pub equals : KBucketEntry → KBucketEntry → Bool
equals a b = id_eq a.id b.id && addr_eq a.addr b.addr

-- The `int` that `60000 << shift` is on a 32-bit machine word, converted to `uint64_t`.
abbrev pub shifted_backoff : ℕ → ℕ
shifted_backoff shift =
    let word = ping_backoff_base * 2 ^ (shift % 32) % 2 ^ 32 in
    if ltb word (2 ^ 31) then word else word + 2 ^ 64 - 2 ^ 32

-- The sum is a `uint64_t`, and the result a `long` of 64 bits.
pub backoff_window_end : KBucketEntry → ℤ
backoff_window_end e =
    if (e.failed_requests == 0) || (e.last_send == 0)
    then negsuc 0
    else signed64 (
        (e.last_send + ping_backoff_base * 2 ^ min kbucket_max_timeouts (e.failed_requests - 1))
        % 2 ^ 64)

pub within_backoff_window : ℕ → KBucketEntry → Bool
within_backoff_window now e =
    not (e.failed_requests == 0)
    && ltb (elapsed now e.last_send)
        (shifted_backoff (max kbucket_max_timeouts (e.failed_requests - 1)))

pub is_eligible_for_nodes_list : KBucketEntry → Bool
is_eligible_for_nodes_list e = e.reachable && ltb e.failed_requests 3

pub is_eligible_for_local_lookup : KBucketEntry → Bool
is_eligible_for_local_lookup e =
    (e.reachable && leb e.failed_requests 3) || (e.failed_requests == 0)

pub needs_ping : ℕ → KBucketEntry → Bool
needs_ping now e =
    if ltb (elapsed now e.last_seen) (30 * 1000) || within_backoff_window now e
    then false
    else not (e.failed_requests == 0) || ltb old_and_stale_time (elapsed now e.last_seen)

pub old_and_stale : ℕ → KBucketEntry → Bool
old_and_stale now e =
    ltb old_and_stale_timeouts e.failed_requests && ltb old_and_stale_time (elapsed now e.last_seen)

pub removable_without_replacement : KBucketEntry → Bool
removable_without_replacement e =
    ltb kbucket_max_timeouts e.failed_requests && not (ltb e.last_send e.last_seen)

pub signal_response : ℕ → KBucketEntry → KBucketEntry
signal_response now e = record e { last_seen = now; failed_requests = 0; reachable = true }

pub signal_request : ℕ → KBucketEntry → KBucketEntry
signal_request now e = record e { last_send = now }

pub merge_request_time : ℕ → KBucketEntry → KBucketEntry
merge_request_time sent e = record e { last_send = max e.last_send sent }

pub signal_request_timeout : KBucketEntry → KBucketEntry
signal_request_timeout e =
    if e.failed_requests == 0
    then record e { failed_requests = 1 }
    else record e { failed_requests = e.failed_requests + 1 }

pub needs_replacement : ℕ → KBucketEntry → Bool
needs_replacement now e =
    (ltb 1 e.failed_requests && not e.reachable)
    || (ltb kbucket_max_timeouts e.failed_requests && old_and_stale now e)

-- The new state of `this`.
pub merge : KBucketEntry → KBucketEntry → KBucketEntry
merge e other = if not (equals e other) || (e.ptr == other.ptr) then e else record e {
  created = min e.created other.created;
  last_seen = max e.last_seen other.last_seen;
  last_send = max e.last_send other.last_send;
  reachable = e.reachable || other.reachable;
  failed_requests =
      if ltb 0 other.failed_requests
      then min e.failed_requests other.failed_requests
      else e.failed_requests;
}
