-- ===== src/Dht/Tests.antt =====
-- The theorems on messages at a concrete node.
use boson_native.Prelude.{ℕ, true, false, none, some, [], ◌∷◌, ◌≡◌, refl, ap, arith, ◌<◌}
use boson_native.Prelude.Int.{negsuc}
use boson_native.Samples.{sample_id, sample_id-IsId, sample_addr}
use boson_native.Id.{compare_to}
use boson_native.SocketAddress.{addr_eq, bytes_eq}
use boson_native.SocketAddress.Classes.{documentation-is_bogon}
use boson_native.Prefix.{zero_id}
use boson_native.Prefix.Interval.{all_ids-cover}
use boson_native.KBucketEntry.{KBucketEntry}
use boson_native.KBucket.{KBucket, get, find_any}
use boson_native.RpcCall.{Message, request}
use boson_native.RoutingTable.{get_entry}
use boson_native.RoutingTable.Invariant.{IsTable}
use boson_native.RoutingTable.Operations.{single-IsTable}
use boson_native.RoutingTable.Lookup.{single-get_entry}
use boson_native.Dht.{Dht, received, other_known, find_known, is_matched, has_moved}
use boson_native.Dht.Received.{IsReceived, received-IsReceived, received-removes}

-- The node number 1, in the bucket of all ids.
abbrev entry : KBucketEntry
entry = record {
  ptr = 1;
  id = sample_id 1;
  addr = sample_addr 1;
  created = 0;
  last_seen = 0;
  last_send = 0;
  reachable = true;
  failed_requests = 0;
}

abbrev bucket : KBucket
bucket = record {
  prefix = record { id = zero_id; depth = negsuc 0 };
  home_bucket = true;
  entries = entry ∷ [];
  last_refresh = 0;
}

abbrev dht : Dht
dht = record {
  table = record { buckets = bucket ∷ []; local_id = sample_id 5; time_of_last_ping_check = 0 };
  known_nodes = (sample_addr 1, sample_id 1) ∷ [];
  pings = [];
  suspected = [];
}

-- A request of the node number 2 from the address of the node number 1.
abbrev message : Message
message = record { type = request; id = sample_id 2; origin = sample_addr 1 }

table-IsTable : IsTable dht.table
table-IsTable = single-IsTable bucket (sample_id 5) 0 refl (record {
  bucket = record { size = omega arith; apart = (tt, tt) };
  placed = ((sample_id-IsId 1 (omega arith), all_ids-cover (sample_id 1)), tt);
})

-- The node number 2 comes from the address of the node number 1; it answers no call.
received-IsReceived_example :
    (d : Dht) × (received 1000 7 message none dht ≡ some d) × IsReceived message none false dht d
received-IsReceived_example =
    received-IsReceived 1000 7 message none false dht table-IsTable (sample_id-IsId 2 (omega arith))
      tt documentation-is_bogon

matched : is_matched message none ≡ true
unfolding is_matched
matched = refl

in_bucket : (b : ℕ) → b < 256 → get_entry (sample_id b) dht.table ≡ get (sample_id b) bucket
in_bucket b h =
    single-get_entry (sample_id b) bucket (sample_id 5) 0 table-IsTable (sample_id-IsId b h)
      (all_ids-cover (sample_id b))

same_place : has_moved message.origin (get_entry (sample_id 2) dht.table) ≡ false
unfolding has_moved get find_any compare_to
same_place = ap (has_moved message.origin) (in_bucket 2 (omega arith))

other : other_known message dht.known_nodes ≡ some (sample_id 1)
unfolding other_known find_known addr_eq bytes_eq compare_to
other = refl

there : get_entry (sample_id 1) dht.table ≡ some entry
unfolding get find_any compare_to
there = in_bucket 1 (omega arith)

received-removes_example :
    (d : Dht) × (received 1000 7 message none dht ≡ some d)
    × (get_entry (sample_id 1) d.table ≡ none)
    × (find_known (sample_addr 1) d.known_nodes ≡ some (sample_id 2))
received-removes_example =
    received-removes 1000 7 message none (sample_id 1) entry dht table-IsTable
      (sample_id-IsId 1 (omega arith)) documentation-is_bogon matched same_place other there
