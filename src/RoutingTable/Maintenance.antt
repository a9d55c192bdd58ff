-- ===== src/RoutingTable/Maintenance.antt =====
-- src/core/routing_table.cc: the maintenance of the table. `bootstrap` is what the DHT gives as the
-- ids of the bootstrap nodes. The entries that are to be put again and the buckets for which a task is
-- started are given back beside the table.
use boson_native.Prelude.{
  ℕ, ◌+◌, ◌*◌, ◌^◌, Bool, true, false, ◌&&◌, ◌||◌, Option, none, some, List, [], ◌∷◌, ◌++◌, All,
  length, leb, ltb, ◌≡◌, refl, Bool-cases, inl, inr, if◌then◌else◌,
}
use boson_native.Id.{NodeId, id_eq}
use boson_native.Prefix.{Prefix, is_prefix_of}
use boson_native.KBucketEntry.{KBucketEntry, elapsed}
use boson_native.KBucket
use boson_native.KBucket.{KBucket, max_entries_per_bucket, needs_to_be_refreshed}
use boson_native.RoutingTable.{RoutingTable, with_entries, merge_buckets}
use boson_native.RoutingTable.Tiles.{Tiles, end}
use boson_native.RoutingTable.Invariant.{Placed, IsGood, IsTable}
use boson_native.RoutingTable.Merging.{merge_buckets-IsSettled}
use boson_native.RoutingTable.Operations.{remove_if_bad-IsGood}

abbrev pub routing_table_maintenance_interval : ℕ
routing_table_maintenance_interval = 4 * 60 * 1000

-- `vector_contains`.
pub contains_id : NodeId → List NodeId → Bool
contains_id id [] = false
contains_id id (x ∷ xs) = id_eq x id || contains_id id xs

-- The loop over a copy of a bucket's entries: the entries left, and those to put again.
pub maintain_entries :
    ℕ
    → NodeId
    → List NodeId
    → Bool
    → Prefix
    → List KBucketEntry
    → List KBucketEntry
    → List KBucketEntry × List KBucketEntry
maintain_entries now own boots was_full p [] es = (es, [])
maintain_entries now own boots was_full p (e ∷ rest) es =
    let es' = KBucket.remove_if_bad now e true es in
    let kept = maintain_entries now own boots was_full p rest es in
    let left = maintain_entries now own boots was_full p rest es' in
    if id_eq e.id own || (was_full && contains_id e.id boots)
    then left
    else if is_prefix_of p e.id
    then kept
    else (left.0, e ∷ left.1)

pub maintain_bucket : ℕ → NodeId → List NodeId → KBucket → KBucket × List KBucketEntry
maintain_bucket now own boots b =
    let was_full = leb max_entries_per_bucket (length b.entries) in
    let r = maintain_entries now own boots was_full b.prefix b.entries b.entries in
    (with_entries b r.0, r.1)

pub record Maintained : Type 0 where
  pub table : RoutingTable
  pub again : List KBucketEntry
  pub refreshed : List Prefix

pub maintain_all :
    ℕ → NodeId → List NodeId → List KBucket → List KBucket × (List KBucketEntry × List Prefix)
maintain_all now own boots [] = ([], ([], []))
maintain_all now own boots (b ∷ bs) =
    let r = maintain_bucket now own boots b in
    let rest = maintain_all now own boots bs in
    let refreshed = if needs_to_be_refreshed now r.0 then b.prefix ∷ rest.1.1 else rest.1.1 in
    (r.0 ∷ rest.0, (r.1 ++ rest.1.0, refreshed))

pub maintenance : ℕ → List NodeId → RoutingTable → Option Maintained
maintenance now boots t =
    let started = record t { time_of_last_ping_check = now } in
    let early = ltb (elapsed now t.time_of_last_ping_check) routing_table_maintenance_interval in
    let work : Option Maintained = elim (merge_buckets (2 * length t.buckets + 1) now 1 started) [
      | none ↦ none
      | some t' ↦
          let r = maintain_all now t'.local_id boots t'.buckets in
          some (record { table = record t' { buckets = r.0 }; again = r.1.0; refreshed = r.1.1 })
    ] in
    if early then some (record { table = t; again = []; refreshed = [] }) else work

-- Entries under their prefix are removed or kept, never put again.
maintain_entries-IsGood :
    (now : ℕ) (own : NodeId) (boots : List NodeId) (was_full : Bool) (p : Prefix)
    (rest es : List KBucketEntry)
    → All (Placed p) rest
    → IsGood p es
    → IsGood p (maintain_entries now own boots was_full p rest es).0
      × ((maintain_entries now own boots was_full p rest es).1 ≡ [])
unfolding maintain_entries
maintain_entries-IsGood now own boots was_full p [] es h k = (k, refl)
maintain_entries-IsGood now own boots was_full p (e ∷ rest) es h k =
    let es' = KBucket.remove_if_bad now e true es in
    elim (Bool-cases (id_eq e.id own || (was_full && contains_id e.id boots))) [
      | inl unwanted ↦ rw unwanted (
          maintain_entries-IsGood now own boots was_full p rest es' h.1
            (remove_if_bad-IsGood now e true p es k))
      | inr wanted ↦
          rw (wanted, h.0.1) (maintain_entries-IsGood now own boots was_full p rest es h.1 k)
    ]

maintain_all-Tiles :
    (now : ℕ) (own : NodeId) (boots : List NodeId) (from : ℕ) (bs : List KBucket) (to : ℕ)
    → Tiles from bs to
    → Tiles from (maintain_all now own boots bs).0 to
unfolding maintain_all maintain_bucket
maintain_all-Tiles now own boots from [] to h = h
maintain_all-Tiles now own boots from (b ∷ bs) to h =
    (h.0, h.1, maintain_all-Tiles now own boots (end b) bs to h.2)

maintain_all-IsGood :
    (now : ℕ) (own : NodeId) (boots : List NodeId) (bs : List KBucket)
    → All (λ (b : KBucket). IsGood b.prefix b.entries) bs
    → All (λ (b : KBucket). IsGood b.prefix b.entries) (maintain_all now own boots bs).0
      × ((maintain_all now own boots bs).1.0 ≡ [])
unfolding maintain_all maintain_bucket
maintain_all-IsGood now own boots [] h = (tt, refl)
maintain_all-IsGood now own boots (b ∷ bs) h =
    let was_full = leb max_entries_per_bucket (length b.entries) in
    let r =
      maintain_entries-IsGood now own boots was_full b.prefix b.entries b.entries h.0.placed h.0 in
    let s = maintain_all-IsGood now own boots bs h.1 in ((r.0, s.0), rw (r.1, s.1) refl)

-- What the maintenance gives back.
pub record IsMaintained (m : Maintained) : Type 0 where
  pub table : IsTable m.table
  pub again : m.again ≡ []

maintained_early :
    (now : ℕ) (boots : List NodeId) (t : RoutingTable)
    → ltb (elapsed now t.time_of_last_ping_check) routing_table_maintenance_interval ≡ true
    → maintenance now boots t ≡ some (record { table = t; again = []; refreshed = [] })
unfolding maintenance
maintained_early now boots t e = rw (maintenance, e) refl

maintained_late :
    (now : ℕ) (boots : List NodeId) (t t' : RoutingTable)
    → ltb (elapsed now t.time_of_last_ping_check) routing_table_maintenance_interval ≡ false
    → merge_buckets (2 * length t.buckets + 1) now 1 (record t { time_of_last_ping_check = now })
      ≡ some t'
    → maintenance now boots t
      ≡ some (record {
        table = record t' { buckets = (maintain_all now t'.local_id boots t'.buckets).0 };
        again = (maintain_all now t'.local_id boots t'.buckets).1.0;
        refreshed = (maintain_all now t'.local_id boots t'.buckets).1.1;
      })
unfolding maintenance
maintained_late now boots t t' e m = rw (maintenance, e, m) refl

-- The maintenance of a table that keeps the invariant ends, keeps the invariant, and finds no entry
-- outside its bucket's prefix: none is put again.
pub maintenance-IsMaintained :
    (now : ℕ) (boots : List NodeId) (t : RoutingTable)
    → IsTable t
    → (m : Maintained) × (maintenance now boots t ≡ some m) × IsMaintained m
maintenance-IsMaintained now boots t h =
    let started = record t { time_of_last_ping_check = now } in
    elim (Bool-cases
      (ltb (elapsed now t.time_of_last_ping_check) routing_table_maintenance_interval)) [
        | inl early ↦ (
          record { table = t; again = []; refreshed = [] },
          maintained_early now boots t early,
          record { table = h; again = refl },
        )
        | inr late ↦
            let started_IsTable : IsTable started = record { tiles = h.tiles; good = h.good } in
            let r = merge_buckets-IsSettled now started started_IsTable in
            let own = (r.0).local_id in
            let g = maintain_all-IsGood now own boots (r.0).buckets r.2.good in
            (
              record {
                table = record r.0 { buckets = (maintain_all now own boots (r.0).buckets).0 };
                again = (maintain_all now own boots (r.0).buckets).1.0;
                refreshed = (maintain_all now own boots (r.0).buckets).1.1;
              },
              maintained_late now boots t r.0 late r.1,
              record {
                table = record {
                  tiles = maintain_all-Tiles now own boots 0 (r.0).buckets (2 ^ 256) r.2.tiles;
                  good = g.0;
                };
                again = g.1;
              },
            )
      ]
