-- ===== src/RoutingTable.antt =====
-- src/core/routing_table.h and routing_table.cc: the buckets of the routing table, in the order of
-- their prefixes. A bucket is shared; it is known by its prefix, which no other bucket of the table
-- has. Files, logging and the tasks that a refresh starts are left out.
pub mod Tiles
pub mod Search
pub mod Order
pub mod Split
pub mod Merge
pub mod Unique
pub mod Invariant
pub mod Put
pub mod Joined
pub mod Settled
pub mod Merging
pub mod Operations
pub mod Lookup
pub mod Maintenance
mod Tests
use boson_native.Prelude.{
  ℕ, zero, suc, ◌+◌, ◌-◌, ◌*◌, ◌/◌, ◌%◌, ◌^◌, max, Bool, true, false, not, ◌&&◌, ◌||◌, Option, none,
  some, List, [], ◌∷◌, ◌++◌, length, get_elem?, set_at, ltb, leb, ◌==◌, Ordering, if◌then◌else◌,
}
use boson_native.Prelude.Int.{negsuc}
use boson_native.Id.{NodeId, id_eq, compare_to}
use boson_native.Prefix
use boson_native.Prefix.{
  Prefix, zero_id, is_prefix_of, is_splittable, split_branch, get_parent, is_sibling_of,
}
use boson_native.KBucketEntry.{
  KBucketEntry, elapsed, needs_replacement, removable_without_replacement,
}
use boson_native.KBucket
use boson_native.KBucket.{KBucket, any_match, is_full, exists, max_entries_per_bucket}

pub record RoutingTable : Type 0 where
  pub buckets : List KBucket
  pub local_id : NodeId
  pub time_of_last_ping_check : ℕ

-- `list_get(buckets, i)`, then a method of the bucket that changes its entries.
abbrev pub with_entries : KBucket → List KBucketEntry → KBucket
with_entries b es = record b { entries = es }

pub new_bucket : Prefix → Bool → KBucket
new_bucket prefix home = record {
  prefix = prefix;
  home_bucket = home;
  entries = [];
  last_refresh = 0;
}

-- A new table has one bucket, for all ids.
pub new_table : NodeId → RoutingTable
new_table id =
    let all : Prefix = record { id = zero_id; depth = negsuc 0 } in
    record { buckets = new_bucket all true ∷ []; local_id = id; time_of_last_ping_check = 0 }

-- What `indexOf` returns behind its loop; -1, which is no index, is `none`.
pub found_index : ℕ → Ordering → Option ℕ
found_index mid Ordering.lt = if mid == 0 then none else some (mid - 1)
found_index mid cmp = some mid

-- The loop; `high` is one more than that of the code, and `fuel` bounds the rounds.
pub search : ℕ → List KBucket → NodeId → ℕ → ℕ → ℕ → Ordering → Option ℕ
search zero bs id low high mid cmp = none
search (suc fuel) bs id low high mid cmp =
    let m = (low + (high - 1)) / 2 in
    let above = search fuel bs id (m + 1) high m Ordering.gt in
    let below = search fuel bs id low m m Ordering.lt in
    let step : Option ℕ = elim (get_elem? bs m) [
      | none ↦ none
      | some b ↦ elim (compare_to id b.prefix.id) [
        | Ordering.gt ↦ above
        | Ordering.lt ↦ below
        | Ordering.eq ↦ some m
      ]
    ] in
    if ltb low high then step else found_index mid cmp

pub index_of : List KBucket → NodeId → Option ℕ
index_of bs id = search (length bs + 1) bs id 0 (length bs) 0 Ordering.eq

pub get_bucket : List KBucket → NodeId → Option KBucket
get_bucket bs id = elim (index_of bs id) [ none ↦ none | some i ↦ get_elem? bs i ]

pub get_entry : NodeId → RoutingTable → Option KBucketEntry
get_entry id t = elim (get_bucket t.buckets id) [ none ↦ none | some b ↦ KBucket.get id b ]

pub is_home_bucket : Prefix → RoutingTable → Bool
is_home_bucket p t = is_prefix_of p t.local_id

pub num_bucket_entries : List KBucket → ℕ
num_bucket_entries [] = 0
num_bucket_entries (b ∷ bs) = length b.entries + num_bucket_entries bs

-- `list_removeAll` of one bucket, the stable sort by prefix, and `_modify`.
pub remove_bucket : KBucket → List KBucket → List KBucket
remove_bucket x [] = []
remove_bucket x (b ∷ bs) =
    let rest = remove_bucket x bs in if Prefix.equals b.prefix x.prefix then bs else b ∷ rest

pub remove_all : List KBucket → List KBucket → List KBucket
remove_all [] bs = bs
remove_all (x ∷ xs) bs = remove_all xs (remove_bucket x bs)

pub insert_bucket : KBucket → List KBucket → List KBucket
insert_bucket x [] = x ∷ []
insert_bucket x (b ∷ bs) =
    let rest = insert_bucket x bs in
    elim (Prefix.compare_prefixes b.prefix x.prefix) [ Ordering.lt ↦ b ∷ rest | _ ↦ x ∷ b ∷ bs ]

pub sort_buckets : List KBucket → List KBucket
sort_buckets [] = []
sort_buckets (b ∷ bs) = insert_bucket b (sort_buckets bs)

pub modify : List KBucket → List KBucket → List KBucket → List KBucket
modify to_remove to_add bs = sort_buckets (remove_all to_remove bs ++ to_add)

pub needs_split : ℕ → KBucket → KBucketEntry → Bool
needs_split now b e =
    is_splittable b.prefix
    && is_full b
    && e.reachable
    && not (exists e.id b)
    && not (any_match (needs_replacement now) b.entries)
    && is_prefix_of (split_branch b.prefix true) e.id

-- The loop of `_split` over the entries.
pub distribute : ℕ → List KBucketEntry → KBucket → KBucket → KBucket × KBucket
distribute now [] l h = (l, h)
distribute now (e ∷ es) l h =
    let l' = with_entries l (KBucket.put now (some e) l.entries) in
    let h' = with_entries h (KBucket.put now (some e) h.entries) in
    let left = distribute now es l' h in
    let right = distribute now es l h' in if is_prefix_of l.prefix e.id then left else right

pub split : ℕ → KBucket → RoutingTable → RoutingTable
split now b t =
    let pl = split_branch b.prefix false in
    let ph = split_branch b.prefix true in
    let r =
      distribute now b.entries (new_bucket pl (is_home_bucket pl t))
        (new_bucket ph (is_home_bucket ph t)) in
    record t { buckets = modify (b ∷ []) (r.0 ∷ r.1 ∷ []) t.buckets }

-- `_put`; each round of `fuel` but the last splits a bucket.
pub put : ℕ → ℕ → KBucketEntry → RoutingTable → Option RoutingTable
put zero now e t = none
put (suc fuel) now e t = elim (index_of t.buckets e.id) [
  | none ↦ none
  | some i ↦ elim (get_elem? t.buckets i) [
    | none ↦ none
    | some b ↦
        let again = put fuel now e (split now b t) in
        let placed = with_entries b (KBucket.put now (some e) b.entries) in
        if needs_split now b e
        then again
        else some (record t { buckets = set_at i placed t.buckets })
  ]
]

-- A method of the bucket of an id.
pub on_bucket : NodeId → (List KBucketEntry → List KBucketEntry) → RoutingTable → RoutingTable
on_bucket id f t = elim (index_of t.buckets id) [
  | none ↦ t
  | some i ↦ elim (get_elem? t.buckets i) [
    | none ↦ t
    | some b ↦ record t { buckets = set_at i (with_entries b (f b.entries)) t.buckets }
  ]
]

pub remove : ℕ → NodeId → RoutingTable → RoutingTable
remove now id t =
    on_bucket id
      (λ es. elim (KBucket.find_any (λ e. id_eq e.id id) es) [
        | none ↦ es
        | some e ↦ KBucket.remove_if_bad now e true es
      ])
      t

pub on_timeout : ℕ → NodeId → RoutingTable → RoutingTable
on_timeout now id t = on_bucket id (KBucket.on_timeout now id) t

pub on_send : ℕ → NodeId → RoutingTable → RoutingTable
on_send now id t = on_bucket id (KBucket.on_send now id) t

pub refresh_only : KBucketEntry → RoutingTable → RoutingTable
refresh_only e t = on_bucket e.id (KBucket.refresh e) t

pub effective_size : List KBucketEntry → ℕ
effective_size [] = 0
effective_size (e ∷ es) =
    let rest = effective_size es in if removable_without_replacement e then rest else rest + 1

pub put_all : ℕ → List KBucketEntry → List KBucketEntry → List KBucketEntry
put_all now [] into = into
put_all now (e ∷ es) into = put_all now es (KBucket.put now (some e) into)

pub join : ℕ → KBucket → KBucket → RoutingTable → RoutingTable
join now b1 b2 t =
    let parent = get_parent b1.prefix in
    let empty = new_bucket parent (is_home_bucket parent t) in
    let filled = with_entries empty (put_all now b2.entries (put_all now b1.entries [])) in
    record t { buckets = modify (b1 ∷ b2 ∷ []) (filled ∷ []) t.buckets }

pub mergeable : KBucket → KBucket → Bool
mergeable b1 b2 =
    is_sibling_of b1.prefix b2.prefix
    && leb (effective_size b1.entries + effective_size b2.entries) max_entries_per_bucket

-- The loop of `_mergeBuckets` at the pair of indices `i - 1` and `i`, where `i` is at least 1: after a
-- merge it goes back one pair, and what would be below the first is skipped.
pub merge_buckets : ℕ → ℕ → ℕ → RoutingTable → Option RoutingTable
merge_buckets zero now i t = none
merge_buckets (suc fuel) now i t = elim (get_elem? t.buckets (i - 1)) [
  | none ↦ some t
  | some b1 ↦ elim (get_elem? t.buckets i) [
    | none ↦ some t
    | some b2 ↦
        let merged = merge_buckets fuel now (max 1 (i - 1)) (join now b1 b2 t) in
        let next = merge_buckets fuel now (i + 1) t in if mergeable b1 b2 then merged else next
  ]
]
