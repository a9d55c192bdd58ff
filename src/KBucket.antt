-- ===== src/KBucket.antt =====
-- src/core/kbucket.h and kbucket.cc: a bucket of the routing table, a list of shared entries. An
-- entry that a method changes through its pointer is changed in the list; `put` and the others give
-- the new list of entries. The logger is left out.
pub mod Size
pub mod Apart
pub mod Sorted
pub mod Kept
pub mod Placed
pub mod Removed
pub mod Operations
mod Tests
use boson_native.Prelude.{
  ℕ, ◌+◌, ◌-◌, ◌*◌, ◌^◌, Bool, true, false, not, ◌&&◌, ◌||◌, Option, none, some, List, [], ◌∷◌,
  ◌++◌, length, get_or, ltb, leb, ◌==◌, Ordering, if◌then◌else◌,
}
use boson_native.Id.{NodeId, id_eq}
use boson_native.SocketAddress.{SocketAddress, addr_eq}
use boson_native.Prefix
use boson_native.Prefix.{Prefix}
use boson_native.KBucketEntry.{
  KBucketEntry, elapsed, matches, equals, merge, needs_replacement, needs_ping, signal_response,
  signal_request, signal_request_timeout,
}

pub record KBucket : Type 0 where
  pub prefix : Prefix
  pub home_bucket : Bool
  pub entries : List KBucketEntry
  pub last_refresh : ℕ

abbrev pub max_entries_per_bucket : ℕ
max_entries_per_bucket = 8

abbrev pub bucket_refresh_interval : ℕ
bucket_refresh_interval = 15 * 60 * 1000

unfoldable pub find_any : (KBucketEntry → Bool) → List KBucketEntry → Option KBucketEntry
find_any p [] = none
find_any p (e ∷ es) = let rest = find_any p es in if p e then some e else rest

pub any_match : (KBucketEntry → Bool) → List KBucketEntry → Bool
any_match p es = elim (find_any p es) [ none ↦ false | some e ↦ true ]

-- The loop that changes the first entry with a property and returns.
pub change_first :
    (KBucketEntry → Bool) → (KBucketEntry → KBucketEntry) → List KBucketEntry → List KBucketEntry
change_first p f [] = []
change_first p f (e ∷ es) = let rest = change_first p f es in if p e then f e ∷ es else e ∷ rest

-- `std::list::remove` of a pointer.
pub remove : KBucketEntry → List KBucketEntry → List KBucketEntry
remove x [] = []
remove x (e ∷ es) = let rest = remove x es in if e.ptr == x.ptr then rest else e ∷ rest

-- The last entry, read by `list_get(entries, size - 1)`.
pub youngest : List KBucketEntry → Option KBucketEntry
youngest [] = none
youngest (e ∷ es) = elim (youngest es) [ none ↦ some e | some y ↦ some y ]

-- `std::list::sort` by creation time: stable.
pub insert_by_creation : KBucketEntry → List KBucketEntry → List KBucketEntry
insert_by_creation x [] = x ∷ []
insert_by_creation x (e ∷ es) =
    let rest = insert_by_creation x es in if ltb e.created x.created then e ∷ rest else x ∷ e ∷ es

pub sort_by_creation : List KBucketEntry → List KBucketEntry
sort_by_creation [] = []
sort_by_creation (e ∷ es) = insert_by_creation e (sort_by_creation es)

-- The insertion of `_update(toRemove, toInsert)` into the list without the removed entry: the new
-- list, and whether the entry was added.
pub insert_entry : KBucketEntry → List KBucketEntry → List KBucketEntry × Bool
insert_entry x es =
    let was_full = leb max_entries_per_bucket (length es) in
    let unordered : Bool = elim (youngest es) [ none ↦ false | some y ↦ ltb x.created y.created ] in
    if unordered
    then (sort_by_creation (es ++ x ∷ []), true)
    else if was_full
    then (es, false)
    else (es ++ x ∷ [], true)

-- `_update(toRemove, toInsert)`, where `none` is the null pointer.
pub update : Option KBucketEntry → Option KBucketEntry → List KBucketEntry → List KBucketEntry
update none none es = es
update (some r) none es = remove r es
update none (some x) es = if any_match (matches x) es then es else (insert_entry x es).0
update (some r) (some x) es =
    if any_match (matches x) es then es else (insert_entry x (remove r es)).0

-- `_update(toRefresh)`.
unfoldable pub refresh : KBucketEntry → List KBucketEntry → List KBucketEntry
refresh x es = change_first (λ e. equals e x) (λ e. merge e x) es

-- The loop that `_put` begins with: the entries after a merge or a conflict, or nothing.
pub find_existing : KBucketEntry → List KBucketEntry → Option (List KBucketEntry)
find_existing x [] = none
find_existing x (e ∷ es) =
    let rest = find_existing x es in
    if equals e x
    then some (merge e x ∷ es)
    else if matches e x
    then some (e ∷ es)
    else elim rest [ none ↦ none | some r ↦ some (e ∷ r) ]

pub put_new : ℕ → KBucketEntry → List KBucketEntry → List KBucketEntry
put_new now x es =
    if ltb (length es) max_entries_per_bucket
    then update none (some x) es
    else elim (find_any (needs_replacement now) es) [
      | some bad ↦ update (some bad) (some x) es
      | none ↦ elim (youngest es) [
        | none ↦ es
        | some y ↦ if ltb x.created y.created then update (some y) (some x) es else es
      ]
    ]

-- `_put`; a null pointer is `none`.
pub put : ℕ → Option KBucketEntry → List KBucketEntry → List KBucketEntry
put now none es = es
put now (some x) es = elim (find_existing x es) [
  | some es' ↦ es'
  | none ↦ if x.reachable then put_new now x es else es
]

-- `_removeIfBad`.
pub remove_if_bad : ℕ → KBucketEntry → Bool → List KBucketEntry → List KBucketEntry
remove_if_bad now x force es =
    if (force || needs_replacement now x) && any_match (λ e. id_eq e.id x.id) es
    then update (some x) none es
    else es

-- `_notifyOfResponse` for a message that is a response with a call.
pub notify_of_response : ℕ → NodeId → List KBucketEntry → List KBucketEntry
notify_of_response now id es = change_first (λ e. id_eq e.id id) (signal_response now) es

-- `_onTimeout`: the entry is removed with the state that the timeout gave it.
pub on_timeout : ℕ → NodeId → List KBucketEntry → List KBucketEntry
on_timeout now id es =
    let es' = change_first (λ e. id_eq e.id id) signal_request_timeout es in
    elim (find_any (λ e. id_eq e.id id) es') [ none ↦ es' | some e ↦ remove_if_bad now e false es' ]

-- `_onSend`.
unfoldable pub on_send : ℕ → NodeId → List KBucketEntry → List KBucketEntry
on_send now id es = change_first (λ e. id_eq e.id id) (signal_request now) es

pub is_full : KBucket → Bool
is_full b = leb max_entries_per_bucket (length b.entries)

unfoldable pub get : NodeId → KBucket → Option KBucketEntry
get id b = find_any (λ e. id_eq e.id id) b.entries

pub find : NodeId → SocketAddress → KBucket → Option KBucketEntry
find id addr b = find_any (λ e. id_eq e.id id || addr_eq e.addr addr) b.entries

pub exists : NodeId → KBucket → Bool
exists id b = any_match (λ e. id_eq e.id id) b.entries

pub needs_to_be_refreshed : ℕ → KBucket → Bool
needs_to_be_refreshed now b =
    ltb bucket_refresh_interval (elapsed now b.last_refresh) && any_match (needs_ping now) b.entries

pub update_refresh_timer : ℕ → KBucket → KBucket
update_refresh_timer now b = record b { last_refresh = now }
