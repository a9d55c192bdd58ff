-- ===== src/RoutingTable/Tests.antt =====
-- The theorems on the routing table at concrete tables.
use boson_native.Prelude.{ℕ, ◌+◌, ◌*◌, true, some, List, [], ◌∷◌, length, ◌≡◌, refl, arith}
use boson_native.Prelude.Int.{negsuc}
use boson_native.Samples.{sample_id, sample_id-IsId, sample_addr}
use boson_native.Id.{compare_to}
use boson_native.Prefix.{zero_id, is_prefix_of}
use boson_native.KBucketEntry.{KBucketEntry}
use boson_native.KBucket.{KBucket}
use boson_native.RoutingTable.{
  RoutingTable, new_table, new_bucket, get_bucket, get_entry, put, merge_buckets, index_of, search,
  found_index,
}
use boson_native.RoutingTable.Unique.{first_cover, get_bucket-first_cover}
use boson_native.RoutingTable.Invariant.{IsTable}
use boson_native.RoutingTable.Settled.{IsSettled}
use boson_native.RoutingTable.Merging.{merge_buckets-IsSettled}
use boson_native.RoutingTable.Lookup.{put-get_entry}
use boson_native.RoutingTable.Maintenance.{
  Maintained, maintenance, IsMaintained, maintenance-IsMaintained,
}
use boson_native.RoutingTable.Operations.{
  Operation, putting, timing_out, removing, merging, run, run-IsTable, new_table-IsTable,
}

-- The reachable node number `b`.
abbrev node : ℕ → KBucketEntry
node b = record {
  ptr = b;
  id = sample_id b;
  addr = sample_addr b;
  created = b;
  last_seen = b;
  last_send = 0;
  reachable = true;
  failed_requests = 0;
}

abbrev history : List (ℕ × Operation)
history =
    (1000, putting (node 1))
    ∷ (1100, timing_out (sample_id 1))
    ∷ (1200, putting (node 200))
    ∷ (1300, removing (sample_id 1))
    ∷ (1400, merging)
    ∷ []

abbrev table : RoutingTable
table = new_table (sample_id 5)

run-IsTable_example : (t : RoutingTable) × (run history table ≡ some t) × IsTable t
run-IsTable_example =
    run-IsTable history table
      (sample_id-IsId 1 (omega arith), (tt, (sample_id-IsId 200 (omega arith), (tt, (tt, tt)))))
      (new_table-IsTable (sample_id 5))

get_bucket-first_cover_example :
    (b : KBucket) × (get_bucket (new_table (sample_id 5)).buckets (sample_id 7) ≡ some b)
    × (first_cover (new_table (sample_id 5)).buckets (sample_id 7) ≡ some b)
    × (is_prefix_of b.prefix (sample_id 7) ≡ true)
get_bucket-first_cover_example =
    get_bucket-first_cover (new_table (sample_id 5)).buckets (sample_id 7)
      (sample_id-IsId 7 (omega arith)) (new_table-IsTable (sample_id 5)).tiles

merge_buckets-IsSettled_example :
    (t : RoutingTable) × (merge_buckets (2 * length table.buckets + 1) 1000 1 table ≡ some t)
    × IsTable t
    × IsSettled t.buckets
merge_buckets-IsSettled_example =
    merge_buckets-IsSettled 1000 table (new_table-IsTable (sample_id 5))

maintenance-IsMaintained_example :
    (m : Maintained) × (maintenance 300000 [] table ≡ some m) × IsMaintained m
maintenance-IsMaintained_example =
    maintenance-IsMaintained 300000 [] table (new_table-IsTable (sample_id 5))

abbrev first_bucket : KBucket
first_bucket = record {
  prefix = record { id = zero_id; depth = negsuc 0 };
  home_bucket = true;
  entries = [];
  last_refresh = 0;
}

got : get_bucket table.buckets (sample_id 1) ≡ some first_bucket
unfolding new_table new_bucket get_bucket index_of search found_index compare_to
got = refl

put-get_entry_example :
    (t : RoutingTable) × (put 257 1000 (node 1) table ≡ some t)
    × (get_entry (sample_id 1) t ≡ some (node 1))
put-get_entry_example =
    put-get_entry 1000 (node 1) table first_bucket (new_table-IsTable (sample_id 5))
      (sample_id-IsId 1 (omega arith)) refl got (omega arith) tt
