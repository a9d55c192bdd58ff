-- ===== src/KBucketEntry/Matching.antt =====
-- Which entries match, and that no operation changes what decides it.
use boson_native.Prelude.{ℕ, false, ◌||◌, ◌≡◌, refl, ap₂, arith}
use boson_native.Id.{NodeId, id_eq}
use boson_native.Id.Order.{compare_to-flip}
use boson_native.SocketAddress.{SocketAddress, addr_eq}
use boson_native.SocketAddress.Classes.{addr_eq_iff}
use boson_native.KBucketEntry.{
  KBucketEntry, matches, equals, merge, signal_response, signal_request, signal_request_timeout,
  merge_request_time, new_entry,
}

abbrev pub SameKey : KBucketEntry → KBucketEntry → Type 0
SameKey a b = (a.id ≡ b.id) × (a.addr ≡ b.addr)

pub id_eq_comm : (a b : NodeId) → id_eq a b ≡ id_eq b a
id_eq_comm a b = ground (arith, compare_to-flip a b)

addr_eq_comm : (a b : SocketAddress) → addr_eq a b ≡ addr_eq b a
addr_eq_comm a b = ground (arith, addr_eq_iff a b, addr_eq_iff b a)

pub matches_comm : (a b : KBucketEntry) → matches a b ≡ matches b a
unfolding matches
matches_comm a b = ap₂ ◌||◌ (id_eq_comm a.id b.id) (addr_eq_comm a.addr b.addr)

pub matches-SameKey : (x a b : KBucketEntry) → SameKey a b → matches x a ≡ matches x b
unfolding matches
matches-SameKey x a b k = rw (k.0, k.1)

pub equals-matches : (a b : KBucketEntry) → matches a b ≡ false → equals a b ≡ false
unfolding matches equals
equals-matches a b h = ground arith

pub merge-SameKey : (e x : KBucketEntry) → SameKey e (merge e x)
unfolding merge
merge-SameKey e x = ground arith

pub signal_response-SameKey : (now : ℕ) (e : KBucketEntry) → SameKey e (signal_response now e)
unfolding signal_response
signal_response-SameKey now e = (refl, refl)

pub signal_request-SameKey : (now : ℕ) (e : KBucketEntry) → SameKey e (signal_request now e)
unfolding signal_request
signal_request-SameKey now e = (refl, refl)

pub signal_request_timeout-SameKey : (e : KBucketEntry) → SameKey e (signal_request_timeout e)
unfolding signal_request_timeout
signal_request_timeout-SameKey e = ground arith

pub merge_request_time-SameKey :
    (sent : ℕ) (e : KBucketEntry) → SameKey e (merge_request_time sent e)
unfolding merge_request_time
merge_request_time-SameKey sent e = (refl, refl)

pub new_entry-id :
    (now ptr : ℕ) (id : NodeId) (addr : SocketAddress) → (new_entry now ptr id addr).id ≡ id
unfolding new_entry
new_entry-id now ptr id addr = refl
