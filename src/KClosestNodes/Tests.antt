-- ===== src/KClosestNodes/Tests.antt =====
-- The theorems on the closest nodes of a table at a concrete table.
use boson_native.Prelude.{none, some, List, [], ◌≡◌, arith}
use boson_native.Samples.{sample_id, sample_id-IsId}
use boson_native.KBucketEntry.{KBucketEntry, is_eligible_for_nodes_list}
use boson_native.RoutingTable.{new_table}
use boson_native.RoutingTable.Operations.{new_table-IsTable}
use boson_native.KClosestNodes.{Request, fill}
use boson_native.KClosestNodes.Size.{IsFilled, fill-IsFilled}

abbrev request : Request
request = record { target = sample_id 9; max_entries = 8; filter = is_eligible_for_nodes_list }

fill-IsFilled_example :
    (es : List KBucketEntry) × (fill request [] none (new_table (sample_id 5)).buckets ≡ some es)
    × IsFilled request (new_table (sample_id 5)).buckets es
fill-IsFilled_example =
    fill-IsFilled request [] none (new_table (sample_id 5)) (new_table-IsTable (sample_id 5))
      (sample_id-IsId 9 (omega arith))
