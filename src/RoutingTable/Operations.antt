-- ===== src/RoutingTable/Operations.antt =====
-- Sequences of operations on the routing table.
use boson_native.Prelude.{
  ℕ, ◌+◌, ◌*◌, ◌^◌, Bool, true, Option, none, some, List, [], ◌∷◌, All, length, get_elem?,
  get_elem?-All, set_at-All, ◌≡◌, refl, sym, ap, subst, ◌∙◌, arith, Option-cases, inl, inr,
}
use boson_native.Prelude.Int.{negsuc}
use boson_native.Id.{NodeId, IsId, id_eq}
use boson_native.Id.Number.{top-zero}
use boson_native.Prefix.{Prefix, zero_id}
use boson_native.Prefix.Cover.{zero_id-IsId}
use boson_native.Prefix.Interval.{IsPrefix, low, bits, zero_id-value}
use boson_native.Prefix.Blunt.{width}
use boson_native.KBucketEntry.{KBucketEntry, equals, merge, signal_request}
use boson_native.KBucketEntry.Matching.{SameKey, merge-SameKey, signal_request-SameKey}
use boson_native.KBucket
use boson_native.KBucket.{KBucket, change_first}
use boson_native.KBucket.Size.{length-remove_if_bad, length-on_timeout, length-change_first}
use boson_native.KBucket.Apart.{remove_if_bad-IsApart, change_first-IsApart, on_timeout-IsApart}
use boson_native.KBucket.Placed.{remove_if_bad-All, change_first-All, on_timeout-All}
use boson_native.RoutingTable.{
  RoutingTable, with_entries, on_bucket, index_of, put, remove, on_timeout, on_send, refresh_only,
  merge_buckets, new_table,
}
use boson_native.RoutingTable.Tiles.{set_at-Tiles}
use boson_native.RoutingTable.Invariant.{Placed, Placed-IsOfKey, IsGood, IsTable, empty-IsGood}
use boson_native.RoutingTable.Put.{put-IsTable}
use boson_native.RoutingTable.Merging.{merge_buckets-IsSettled}

-- A table with one bucket, for all ids.
pub single-IsTable :
    (b : KBucket) (id : NodeId) (checked : ℕ)
    → b.prefix ≡ record { id = zero_id; depth = negsuc 0 }
    → IsGood b.prefix b.entries
    → IsTable (record { buckets = b ∷ []; local_id = id; time_of_last_ping_check = checked })
single-IsTable b id checked e g =
    let all : Prefix = record { id = zero_id; depth = negsuc 0 } in
    let first : low all ≡ 0 = zero_id-value in
    let all_prefix : IsPrefix all = record {
      is_id = zero_id-IsId;
      depth = refl;
      blunt = first ∙ ap (λ (t : ℕ). t * 2 ^ 256) (sym (top-zero zero_id));
    } in
    record {
      tiles =
          subst (λ p. IsPrefix p × (low p ≡ 0) × (low p + width (bits p) ≡ 2 ^ 256)) (sym e)
            (all_prefix, first, ap (λ (n : ℕ). n + 2 ^ 256) first);
      good = (g, tt);
    }

-- The table that the constructor makes.
pub new_table-IsTable : (id : NodeId) → IsTable (new_table id)
unfolding new_table boson_native.RoutingTable.new_bucket
new_table-IsTable id =
    let all : Prefix = record { id = zero_id; depth = negsuc 0 } in
    single-IsTable (boson_native.RoutingTable.new_bucket all true) id 0 refl (empty-IsGood all)

-- A change of the entries of one bucket that keeps what holds of every bucket.
on_bucket-IsTable :
    (id : NodeId) (f : List KBucketEntry → List KBucketEntry) (t : RoutingTable)
    → ((p : Prefix) (es : List KBucketEntry) → IsGood p es → IsGood p (f es))
    → IsTable t
    → IsTable (on_bucket id f t)
unfolding on_bucket
on_bucket-IsTable id f t keep h = elim (Option-cases (index_of t.buckets id)) [
  | inl gone ↦ rw (on_bucket, gone) h
  | inr (i, found) ↦ elim (Option-cases (get_elem? t.buckets i)) [
    | inl gone ↦ rw (on_bucket, found, gone) h
    | inr (b, here) ↦
        let good : (c : KBucket) → Type 0 = λ c. IsGood c.prefix c.entries in
        let b' = with_entries b (f b.entries) in
        rw (on_bucket, found, here)
          (record {
            tiles = set_at-Tiles 0 t.buckets (2 ^ 256) i b b' h.tiles here refl;
            good =
                set_at-All good t.buckets i b' h.good
                  (keep b.prefix b.entries (get_elem?-All good t.buckets i b h.good here));
          })
  ]
]

change_first-IsGood :
    (f : KBucketEntry → KBucketEntry) (q : KBucketEntry → Bool) (p : Prefix)
    (es : List KBucketEntry)
    → ((e : KBucketEntry) → SameKey e (f e))
    → IsGood p es
    → IsGood p (change_first q f es)
change_first-IsGood f q p es k h = record {
  bucket = record {
    size = omega (arith, length-change_first q f es, h.bucket.size);
    apart = change_first-IsApart q f k es h.bucket.apart;
  };
  placed = change_first-All (Placed p) (Placed-IsOfKey p) q f k es h.placed;
}

pub remove_if_bad-IsGood :
    (now : ℕ) (x : KBucketEntry) (force : Bool) (p : Prefix) (es : List KBucketEntry)
    → IsGood p es
    → IsGood p (KBucket.remove_if_bad now x force es)
remove_if_bad-IsGood now x force p es h = record {
  bucket = record {
    size = omega (arith, length-remove_if_bad now x force es, h.bucket.size);
    apart = remove_if_bad-IsApart now x force es h.bucket.apart;
  };
  placed = remove_if_bad-All (Placed p) now x force es h.placed;
}

pub remove-IsTable :
    (now : ℕ) (id : NodeId) (t : RoutingTable) → IsTable t → IsTable (remove now id t)
unfolding remove
remove-IsTable now id t h =
    on_bucket-IsTable id (λ es. removed es (KBucket.find_any (λ e. id_eq e.id id) es)) t
      (λ p es k. removed-IsGood p es (KBucket.find_any (λ e. id_eq e.id id) es) k) h
  where
    removed : List KBucketEntry → Option KBucketEntry → List KBucketEntry
    removed es o = elim o [ none ↦ es | some e ↦ KBucket.remove_if_bad now e true es ]

    removed-IsGood :
        (p : Prefix) (es : List KBucketEntry) (o : Option KBucketEntry)
        → IsGood p es
        → IsGood p (removed es o)
    removed-IsGood p es none k = k
    removed-IsGood p es (some e) k = remove_if_bad-IsGood now e true p es k

on_timeout-IsTable :
    (now : ℕ) (id : NodeId) (t : RoutingTable) → IsTable t → IsTable (on_timeout now id t)
unfolding on_timeout
on_timeout-IsTable now id t h =
    on_bucket-IsTable id (KBucket.on_timeout now id) t
      (λ p es k. record {
        bucket = record {
          size = omega (arith, length-on_timeout now id es, k.bucket.size);
          apart = on_timeout-IsApart now id es k.bucket.apart;
        };
        placed = on_timeout-All (Placed p) (Placed-IsOfKey p) now id es k.placed;
      })
      h

on_send-IsTable :
    (now : ℕ) (id : NodeId) (t : RoutingTable) → IsTable t → IsTable (on_send now id t)
unfolding on_send KBucket.on_send
on_send-IsTable now id t h =
    on_bucket-IsTable id (KBucket.on_send now id) t
      (λ p es k.
        change_first-IsGood (signal_request now) (λ e. id_eq e.id id) p es
          (signal_request-SameKey now) k)
      h

refresh_only-IsTable :
    (x : KBucketEntry) (t : RoutingTable) → IsTable t → IsTable (refresh_only x t)
unfolding refresh_only KBucket.refresh
refresh_only-IsTable x t h =
    on_bucket-IsTable x.id (KBucket.refresh x) t
      (λ p es k.
        change_first-IsGood (λ e. merge e x) (λ e. equals e x) p es (λ e. merge-SameKey e x) k)
      h

-- What the pipeline of the table is asked to do.
pub data Operation : Type 0 where
  putting refreshing : KBucketEntry → Operation
  removing timing_out sending : NodeId → Operation
  merging : Operation

pub apply : ℕ → Operation → RoutingTable → Option RoutingTable
apply now (putting e) t = put 257 now e t
apply now (refreshing e) t = some (refresh_only e t)
apply now (removing id) t = some (remove now id t)
apply now (timing_out id) t = some (on_timeout now id t)
apply now (sending id) t = some (on_send now id t)
apply now merging t = merge_buckets (2 * length t.buckets + 1) now 1 t

pub run : List (ℕ × Operation) → RoutingTable → Option RoutingTable
run [] t = some t
run ((now, op) ∷ ops) t = elim (apply now op t) [ none ↦ none | some t' ↦ run ops t' ]

-- An entry that is put has an id of 32 bytes.
abbrev pub HasId : ℕ × Operation → Type 0
HasId (now, putting e) = IsId e.id
HasId (now, refreshing e) = Unit
HasId (now, removing id) = Unit
HasId (now, timing_out id) = Unit
HasId (now, sending id) = Unit
HasId (now, merging) = Unit

apply-IsTable :
    (now : ℕ) (op : Operation) (t : RoutingTable)
    → HasId (now, op)
    → IsTable t
    → (t' : RoutingTable) × (apply now op t ≡ some t') × IsTable t'
unfolding apply
apply-IsTable now (putting e) t k h = put-IsTable now e t h k
apply-IsTable now (refreshing e) t k h = (refresh_only e t, refl, refresh_only-IsTable e t h)
apply-IsTable now (removing id) t k h = (remove now id t, refl, remove-IsTable now id t h)
apply-IsTable now (timing_out id) t k h = (on_timeout now id t, refl, on_timeout-IsTable now id t h)
apply-IsTable now (sending id) t k h = (on_send now id t, refl, on_send-IsTable now id t h)
apply-IsTable now merging t k h = let r = merge_buckets-IsSettled now t h in (r.0, r.1, r.2)

run_on :
    (now : ℕ) (op : Operation) (ops : List (ℕ × Operation)) (t t' t'' : RoutingTable)
    → apply now op t ≡ some t'
    → run ops t' ≡ some t''
    → run ((now, op) ∷ ops) t ≡ some t''
unfolding run
run_on now op ops t t' t'' e k = rw (run, e) k

-- Any sequence of puts of entries with ids of 32 bytes, removals, timeouts, sends, refreshes and merges
-- ends, and leaves a table whose buckets tile the ids and hold at most eight entries each, no two
-- with one id or address, all under the prefix of their bucket, if it was such a table before.
pub run-IsTable :
    (ops : List (ℕ × Operation)) (t : RoutingTable)
    → All HasId ops
    → IsTable t
    → (t' : RoutingTable) × (run ops t ≡ some t') × IsTable t'
run-IsTable [] t k h = (t, done t, h)
  where
    done : (t : RoutingTable) → run [] t ≡ some t
    done t = unfold run in refl
run-IsTable ((now, op) ∷ ops) t k h =
    let a = apply-IsTable now op t k.0 h in
    let r = run-IsTable ops a.0 k.1 a.2 in (r.0, run_on now op ops t a.0 r.0 a.1 r.1, r.2)
